-- ===== src/Turn/Sections.antt =====
-- The sections of `TurnLifecycleStore` that hold its lock, one after another in any order: each
-- keeps the store sound and every turn's history.
use dexpi_datalog.Prelude.{
  String, ◌≡◌, refl, ap, inl, inr, Bool, true, false, ◌||◌, Option, none, some, Option-cases,
  if◌then◌else◌,
}
use dexpi_datalog.Json.{Json}
use dexpi_datalog.Turn.Defs.{
  Status, active, canceled, tool_progress, cancellation, Turn, Document, turn, value, Result, ok,
  err, append, turn_key, is_active, is_paused, Backend, compute_turn_id, EventType,
}
use dexpi_datalog.Turn.Invariant.{
  IsTurn, Continues, Continues-refl, Continues-trans, Grows-append, Grows-relabel, append-IsTurn,
  closing,
}
use dexpi_datalog.Turn.Keys.{compute_turn_id-IsId}
use dexpi_datalog.Turn.Lifecycle.{
  get, save, as_turn, begin, append_progress, cancel, request_answer_now, reopened, new_turn, Round,
  found, unit_of,
}
use dexpi_datalog.Turn.Sound.{Holds, IsSound, Keeps, save-IsSound, save-Keeps, save-Keeps_new}

active_of : (st : Status) → is_active st ≡ true → st ≡ active
active_of active h = refl
active_of _ h = cc

module _ (b : Backend) where
  open b use {store}

  -- What one section does to a sound store.
  pub record IsSafe (s u : store.State) : Type 0 where
    pub sound : IsSound b u
    pub keeps : Keeps b s u

  pub IsSafe-refl : {s : store.State} → IsSound b s → IsSafe s s
  IsSafe-refl v = record { sound = v; keeps = λ k t p. (t, p, Continues-refl t) }

  pub IsSafe-trans : {s u w : store.State} → IsSafe s u → IsSafe u w → IsSafe s w
  IsSafe-trans f g = record {
    sound = g.sound;
    keeps = λ k t p.
        let (t', q, c) = f.keeps k t p in
        let (t'', r, d) = g.keeps k t' q in (t'', r, Continues-trans c d);
  }

  document_of : (o : Option Document) (t : Turn) → as_turn o ≡ some t → o ≡ some (turn t)
  document_of none t h = cc
  document_of (some (value v)) t h = cc
  document_of (some (turn x)) t h = cc

  pub get-Holds :
      (s : store.State) (sid tid : String) (t : Turn)
      → get b s sid tid ≡ some t
      → Holds b s (turn_key sid tid) t
  unfolding get
  get-Holds s sid tid t h = document_of (store.read s (turn_key sid tid)) t h

  pub get-not_Holds :
      (s : store.State) (sid tid : String)
      → get b s sid tid ≡ none
      → (t : Turn) → ¬ Holds b s (turn_key sid tid) t
  unfolding get
  get-not_Holds s sid tid h t p = cc (ap as_turn p)

  -- Saving a well-formed later state of a turn that was read is safe.
  save-IsSafe :
      (s : store.State) (sid tid : String) (t t' : Turn)
      → IsSound b s
      → get b s sid tid ≡ some t
      → IsTurn t'
      → Continues t t'
      → IsSafe s (save b s t').0
  save-IsSafe s sid tid t t' v p h c = record {
    sound = save-IsSound b s t' v h;
    keeps = save-Keeps b s t t' (turn_key sid tid) v (get-Holds s sid tid t p) c;
  }

  -- So is saving a turn under a new status and with the event that goes with it.
  told-IsSafe :
      (s : store.State) (sid tid : String) (t : Turn) (st : Status) (kind : EventType) (p : Json)
      → IsSound b s
      → get b s sid tid ≡ some t
      → kind ≡ closing st
      → IsSafe s (save b s (append (record t { status = st }) kind p)).0
  told-IsSafe s sid tid t st kind p v e k =
      let h = v.is_turn (turn_key sid tid) t (get-Holds s sid tid t e) in
      save-IsSafe s sid tid t _ v e
        (append-IsTurn (record t { status = st }) kind p h.numbered h.named k)
        (Continues-trans ((Grows-relabel t st t.result t.steering).continues)
          ((Grows-append (record t { status = st }) kind p).continues))

  pub found-state : (r : store.State × Result Turn) → (found b r).0 ≡ r.0
  found-state (s, ok t) = refl
  found-state (s, err e) = refl

  pub unit_of-state : (r : store.State × Result Turn) → (unit_of b r).0 ≡ r.0
  unit_of-state (s, ok t) = refl
  unit_of-state (s, err e) = refl

  pub IsSafe-if :
      {A : Type 0} (s : store.State) (c : Bool) (x y : store.State × A)
      → (c ≡ true → IsSafe s x.0)
      → (c ≡ false → IsSafe s y.0)
      → IsSafe s (if c then x else y).0
  IsSafe-if s true x y h k = h refl
  IsSafe-if s false x y h k = k refl

  pub begin-IsSafe :
      (s : store.State) (sid rid question : String)
      → IsSound b s
      → IsSafe s (begin b s sid rid question).0
  unfolding begin
  begin-IsSafe s sid rid question v =
      elim (Option-cases (get b s sid (compute_turn_id b sid rid))) [
        | inl e ↦
            let t = new_turn b sid rid question in
            rw (e, begin)
              (record {
                sound = save-IsSound b s t v (record {
                  numbered = (refl, tt);
                  told = refl;
                  named = compute_turn_id-IsId b sid rid;
                });
                keeps = save-Keeps_new b s t (get-not_Holds s sid (compute_turn_id b sid rid) e);
              })
        | inr (t, e) ↦ rw (e, begin) (IsSafe-refl v)
      ]

  progress-IsSafe :
      (s : store.State) (sid tid : String) (t : Turn) (p : Json)
      → IsSound b s
      → get b s sid tid ≡ some t
      → is_active t.status ≡ true
      → IsSafe s (save b s (append t tool_progress p)).0
  progress-IsSafe s sid tid t p v e live =
      let h = v.is_turn (turn_key sid tid) t (get-Holds s sid tid t e) in
      save-IsSafe s sid tid t _ v e
        (append-IsTurn t tool_progress p h.numbered h.named (rw (active_of t.status live)))
        (Grows-append t tool_progress p).continues

  pub append_progress-IsSafe :
      (s : store.State) (sid tid : String) (r : Round)
      → IsSound b s
      → IsSafe s (append_progress b s sid tid r).0
  unfolding append_progress
  append_progress-IsSafe s sid tid r v = elim (Option-cases (get b s sid tid)) [
    | inl e ↦ rw (e, append_progress) (IsSafe-refl v)
    | inr (t, e) ↦
        rw (e, append_progress)
          (IsSafe-if s (is_active t.status) _ _
            (λ live. rw unit_of-state (progress-IsSafe s sid tid t _ v e live))
            (λ _. IsSafe-refl v))
  ]

  pub cancel-IsSafe :
      (s : store.State) (sid tid : String) → IsSound b s → IsSafe s (cancel b s sid tid).0
  unfolding cancel
  cancel-IsSafe s sid tid v = elim (Option-cases (get b s sid tid)) [
    | inl e ↦ rw (e, cancel) (IsSafe-refl v)
    | inr (t, e) ↦
        rw (e, cancel)
          (IsSafe-if s (is_active t.status || is_paused t.status) _ _
            (λ _. rw found-state (told-IsSafe s sid tid t canceled cancellation _ v e refl))
            (λ _. IsSafe-refl v))
  ]

  pub request_answer_now-IsSafe :
      (s : store.State) (sid tid : String)
      → IsSound b s
      → IsSafe s (request_answer_now b s sid tid).0
  unfolding request_answer_now
  request_answer_now-IsSafe s sid tid v = elim (Option-cases (get b s sid tid)) [
    | inl e ↦ rw (e, request_answer_now) (IsSafe-refl v)
    | inr (t, e) ↦
        let h = v.is_turn (turn_key sid tid) t (get-Holds s sid tid t e) in
        rw (e, request_answer_now)
          (IsSafe-if s (is_active t.status) _ _
            (λ _. rw found-state (
              save-IsSafe s sid tid t _ v e
                (record { numbered = h.numbered; told = h.told; named = h.named })
                (Grows-relabel t t.status t.result (some "answer_now")).continues))
            (λ _. IsSafe-refl v))
  ]

  -- The first section of `resume`.
  pub reopen-IsSafe :
      (s : store.State) (sid tid : String) (t : Turn)
      → IsSound b s
      → get b s sid tid ≡ some t
      → IsSafe s (save b s (reopened b t)).0
  reopen-IsSafe s sid tid t v e = told-IsSafe s sid tid t active tool_progress _ v e refl
