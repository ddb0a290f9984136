-- ===== src/Turn/Sound.antt =====
-- A store whose turns are sound: an invariant of every section of web/turn_lifecycle.py.
use mathlib.Core.Path.{subst, ap₂}
use dexpi_datalog.Prelude.{
  String, ◌≡◌, refl, sym, ap, ◌∙◌, ◌⊎◌, inl, inr, Bool, true, false, Option, some, Option-cases,
  Bool-cases, if◌then◌else◌,
}
use dexpi_datalog.Turn.Defs.{Turn, Document, turn, turn_key, Backend}
use dexpi_datalog.Turn.Invariant.{IsTurn, Continues, Continues-refl}
use dexpi_datalog.Turn.Lifecycle.{save}

module _ (b : Backend) where
  open b use {store}

  -- The turn document at a key.
  abbrev pub Holds : store.State → String → Turn → Type 0
  Holds s k t = store.read s k ≡ some (turn t)

  abbrev pub own_key : Turn → String
  own_key t = turn_key t.session_id t.turn_id

  -- Every turn in the store is well formed and stands at its own key.
  pub record IsSound (s : store.State) : Type 0 where
    pub is_turn : (k : String) (t : Turn) → Holds s k t → IsTurn t
    pub keyed : (k : String) (t : Turn) → Holds s k t → store.same (own_key t) k ≡ true

  -- Nothing that is not a turn was touched as far as turns go.
  pub record SameTurns (s u : store.State) : Type 0 where
    pub forth : (k : String) (t : Turn) → Holds s k t → Holds u k t
    pub back : (k : String) (t : Turn) → Holds u k t → Holds s k t

  -- No turn is lost, and each goes on from what it was.
  abbrev pub Keeps : store.State → store.State → Type 0
  Keeps s u = (k : String) (t : Turn) → Holds s k t → (t' : Turn) × Holds u k t' × Continues t t'

  pub SameTurns-IsSound : {s u : store.State} → SameTurns s u → IsSound s → IsSound u
  SameTurns-IsSound h v = record {
    is_turn = λ k t p. v.is_turn k t (h.back k t p);
    keyed = λ k t p. v.keyed k t (h.back k t p);
  }

  pub SameTurns-Keeps : {s u : store.State} → SameTurns s u → Keeps s u
  SameTurns-Keeps h k t p = (t, h.forth k t p, Continues-refl t)

  -- A save either is refused and changes nothing, or writes the turn at its own key.
  pub save_cases :
      (s : store.State) (t : Turn)
      → ((save b s t).0 ≡ s)
        ⊎ ((k : String)
            → store.read (save b s t).0 k
              ≡ (if store.same (own_key t) k then some (turn t) else store.read s k))
  unfolding save
  save_cases s t = elim (Option-cases (store.write s (own_key t) (turn t))) [
    | inl refused ↦ inl (rw (refused, save))
    | inr (u, e) ↦ inr (λ k. rw (e, save) (store.read-write s u (own_key t) k (turn t) e))
  ]

  one_of :
      (t d : Turn) (o : Option Document) (c : Bool)
      → (if c then some (turn t) else o) ≡ some (turn d)
      → (o ≡ some (turn d)) ⊎ ((c ≡ true) × (t ≡ d))
  one_of t d o true h = inr (refl, cc)
  one_of t d o false h = inl h

  -- A turn that is there after a save was there before, or was saved.
  pub save-Holds :
      (s : store.State) (t : Turn) (k : String) (d : Turn)
      → Holds (save b s t).0 k d
      → Holds s k d ⊎ ((store.same (own_key t) k ≡ true) × (t ≡ d))
  save-Holds s t k d h = elim (save_cases s t) [
    | inl e ↦ inl (rw e at h)
    | inr e ↦ one_of t d (store.read s k) (store.same (own_key t) k) (sym (e k) ∙ h)
  ]

  pub save-IsSound : (s : store.State) (t : Turn) → IsSound s → IsTurn t → IsSound (save b s t).0
  save-IsSound s t v h = record {
    is_turn = λ k d p. elim (save-Holds s t k d p) [
      | inl old ↦ v.is_turn k d old
      | inr (_, e) ↦ subst IsTurn e h
    ];
    keyed = λ k d p. elim (save-Holds s t k d p) [
      | inl old ↦ v.keyed k d old
      | inr (same, e) ↦ subst (λ x. store.same (own_key x) k ≡ true) e same
    ];
  }

  pub some-turn_injective : (t d : Turn) → some (turn t) ≡ some (turn d) → t ≡ d
  some-turn_injective t d e = cc

  kept_by_write :
      (s u : store.State) (t t' : Turn) (k j : String) (d : Turn)
      → IsSound s
      → store.read u j ≡ (if store.same (own_key t') j then some (turn t') else store.read s j)
      → Holds s k t
      → Continues t t'
      → Holds s j d
      → (d' : Turn) × Holds u j d' × Continues d d'
  kept_by_write s u t t' k j d v e p c q = elim (Bool-cases (store.same (own_key t') j)) [
    | inl here ↦
        let own : own_key t' ≡ own_key t = ap₂ turn_key c.same_session c.same_turn in
        let there : store.read s (own_key t') ≡ some (turn t) =
          ap (store.read s) own ∙ store.read_same s (own_key t) k (v.keyed k t p) ∙ p in
        let was : t ≡ d =
          some-turn_injective t d (sym there ∙ store.read_same s (own_key t') j here ∙ q) in
        (t', rw e (rw here), subst (λ x. Continues x t') was c)
    | inr away ↦ (d, rw e (rw away q), Continues-refl d)
  ]

  -- Saving a later state of a turn that the store holds loses no turn.
  pub save-Keeps :
      (s : store.State) (t t' : Turn) (k : String)
      → IsSound s
      → Holds s k t
      → Continues t t'
      → Keeps s (save b s t').0
  save-Keeps s t t' k v p c j d q = elim (save_cases s t') [
    | inl e ↦ (d, rw e q, Continues-refl d)
    | inr e ↦ kept_by_write s (save b s t').0 t t' k j d v (e j) p c q
  ]

  -- Saving a turn at a key that held none loses no turn.
  pub save-Keeps_new :
      (s : store.State) (t : Turn) → ((d : Turn) → ¬ Holds s (own_key t) d) → Keeps s (save b s t).0
  save-Keeps_new s t fresh j d q = elim (save_cases s t) [
    | inl e ↦ (d, rw e q, Continues-refl d)
    | inr e ↦ elim (Bool-cases (store.same (own_key t) j)) [
      | inl here ↦ absurd (fresh d (store.read_same s (own_key t) j here ∙ q))
      | inr away ↦ (d, rw e (rw away q), Continues-refl d)
    ]
  ]
