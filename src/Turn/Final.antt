-- ===== src/Turn/Final.antt =====
-- Cancellation stands, and what a second request and a steering request see.
pub mod Canceled
use mathlib.Core.Path.{subst, ap₂}
use dexpi_datalog.Prelude.{
  String, ◌≡◌, ◌≢◌, refl, sym, ap, ◌∙◌, ◌⊎◌, inl, inr, Bool, true, false, ◌||◌, Option, none, some,
  List, arith, Option-cases, Bool-cases, if◌then◌else◌, ◌==◌, string_eq, ==_refl, ◌&&◌,
}
use dexpi_datalog.Json.{Json, Fields}
use dexpi_datalog.Store.{ArtifactStore}
use dexpi_datalog.Turn.Defs.{
  Status, active, paused, canceled, failed, completed, Turn, Document, turn, Attempt, Result, ok,
  err, append, turn_key, tool_progress, failure, cancellation, returned, raised, is_active,
  is_paused, is_canceled, Backend, compute_turn_id,
}
use dexpi_datalog.Turn.Lifecycle.{
  get, save, begin, finish, append_progress, cancel, request_answer_now, Round, found, unit_of,
  settle, reopened, new_turn,
}
use dexpi_datalog.Turn.Sound.{
  Holds, own_key, IsSound, SameTurns, save_cases, some-turn_injective, SameTurns-IsSound,
}
use dexpi_datalog.Turn.Sections.{get-Holds, get-not_Holds, found-state, unit_of-state}
use dexpi_datalog.Turn.Invariant.{Continues, Continues-trans, Grows-append, Grows-relabel}
use dexpi_datalog.Turn.Steps.{Step, begins, progresses, cancels, answers, reopens, finishes, others}

module _ (b : Backend) where
  open b use {store}

  -- A turn at another place is not touched by a save.
  save-Holds_apart :
      (s : store.State) (t : Turn) (k : String) (d : Turn)
      → store.same (own_key b t) k ≡ false
      → Holds b s k d
      → Holds b (save b s t).0 k d
  save-Holds_apart s t k d away p = elim (save_cases b s t) [
    | inl e ↦ rw e p
    | inr e ↦ rw (e k) (rw away p)
  ]

  -- Every canceled turn of `s` stands unchanged in `u`.
  pub record Stands (s u : store.State) : Type 0 where
    pub canceled_kept :
        (k : String) (d : Turn) → Holds b s k d → d.status ≡ canceled → Holds b u k d

  pub Stands-refl : (s : store.State) → Stands s s
  Stands-refl s = record { canceled_kept = λ k d p _. p }

  pub Stands-if :
      {A : Type 0} (s : store.State) (c : Bool) (x y : store.State × A)
      → (c ≡ true → Stands s x.0)
      → (c ≡ false → Stands s y.0)
      → Stands s (if c then x else y).0
  Stands-if s true x y h k = h refl
  Stands-if s false x y h k = k refl

  -- Saving at the place of a turn that is not canceled spares every canceled turn.
  pub Stands-save :
      (s : store.State) (j : String) (t t' : Turn)
      → IsSound b s
      → Holds b s j t
      → own_key b t' ≡ own_key b t
      → t.status ≢ canceled
      → Stands s (save b s t').0
  Stands-save s j t t' v p own live = record {
    canceled_kept = λ k d q over. elim (Bool-cases (store.same (own_key b t') k)) [
      | inl here ↦
          let there : store.read s (own_key b t') ≡ some (turn t) =
            ap (store.read s) own ∙ store.read_same s (own_key b t) j (v.keyed j t p) ∙ p in
          let was : t ≡ d =
            some-turn_injective b t d (sym there ∙ store.read_same s (own_key b t') k here ∙ q) in
          absurd (live (ap (λ (x : Turn). x.status) was ∙ over))
      | inr away ↦ save-Holds_apart s t' k d away q
    ];
  }

  -- So does saving where no turn stood.
  pub Stands-fresh :
      (s : store.State) (t : Turn)
      → ((d : Turn) → ¬ Holds b s (own_key b t) d)
      → Stands s (save b s t).0
  Stands-fresh s t fresh = record {
    canceled_kept = λ k d q _. elim (Bool-cases (store.same (own_key b t) k)) [
      | inl here ↦ absurd (fresh d (store.read_same s (own_key b t) k here ∙ q))
      | inr away ↦ save-Holds_apart s t k d away q
    ];
  }

  pub begin-Stands :
      (s : store.State) (sid rid question : String) → Stands s (begin b s sid rid question).0
  unfolding begin
  begin-Stands s sid rid question = elim (Option-cases (get b s sid (compute_turn_id b sid rid))) [
    | inl e ↦
        rw (e, begin)
          (Stands-fresh s (new_turn b sid rid question)
            (get-not_Holds b s sid (compute_turn_id b sid rid) e))
    | inr (t, e) ↦ rw (e, begin) (Stands-refl s)
  ]

  module _ (s : store.State) (sid tid : String) (v : IsSound b s) where
    pub append_progress-Stands : (r : Round) → Stands s (append_progress b s sid tid r).0
    unfolding append_progress append
    append_progress-Stands r = elim (Option-cases (get b s sid tid)) [
      | inl e ↦ rw (e, append_progress) (Stands-refl s)
      | inr (t, e) ↦
          rw (e, append_progress)
            (Stands-if s (is_active t.status) _ _
              (λ live.
                rw unit_of-state
                  (Stands-save s _ t _ v (get-Holds b s sid tid t e) refl (λ c. ground arith)))
              (λ _. Stands-refl s))
    ]

    pub cancel-Stands : Stands s (cancel b s sid tid).0
    unfolding cancel append
    cancel-Stands = elim (Option-cases (get b s sid tid)) [
      | inl e ↦ rw (e, cancel) (Stands-refl s)
      | inr (t, e) ↦
          rw (e, cancel)
            (Stands-if s (is_active t.status || is_paused t.status) _ _
              (λ live.
                rw found-state
                  (Stands-save s _ t _ v (get-Holds b s sid tid t e) refl (λ c. ground arith)))
              (λ _. Stands-refl s))
    ]

    pub request_answer_now-Stands : Stands s (request_answer_now b s sid tid).0
    unfolding request_answer_now
    request_answer_now-Stands = elim (Option-cases (get b s sid tid)) [
      | inl e ↦ rw (e, request_answer_now) (Stands-refl s)
      | inr (t, e) ↦
          rw (e, request_answer_now)
            (Stands-if s (is_active t.status) _ _
              (λ live.
                rw found-state
                  (Stands-save s _ t _ v (get-Holds b s sid tid t e) refl (λ c. ground arith)))
              (λ _. Stands-refl s))
    ]
