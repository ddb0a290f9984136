-- ===== src/Turn/Steps.antt =====
-- The sections in any order, from any threads; `start` and `resume` as wholes.
use dexpi_datalog.Prelude.{String, ◌≡◌, refl, inl, inr, true, some, Option-cases, Bool-cases}
use dexpi_datalog.Turn.Defs.{
  active, tool_progress, paused, Turn, turn, Attempt, Result, ok, err, turn_key, is_paused, Backend,
  compute_turn_id, append,
}
use dexpi_datalog.Turn.Invariant.{IsNumbered, append-IsNumbered}
use dexpi_datalog.Turn.Keys.{IsId, compute_turn_id-IsId}
use dexpi_datalog.Turn.Lifecycle.{
  get, save, begin, finish, append_progress, cancel, request_answer_now, reopened, new_turn, Round,
  run, start, resume,
}
use dexpi_datalog.Turn.Sound.{own_key, IsSound, SameTurns, SameTurns-IsSound, SameTurns-Keeps}
use dexpi_datalog.Turn.Sections.{
  IsSafe, IsSafe-refl, IsSafe-trans, IsSafe-if, get-Holds, begin-IsSafe, append_progress-IsSafe,
  cancel-IsSafe, request_answer_now-IsSafe, reopen-IsSafe, found-state,
}
use dexpi_datalog.Turn.Settle.{Fits, finish-IsSafe}

module _ (b : Backend) where
  open b use {store}

  -- One section under the lock, or a write of something that is no turn.
  pub data Step (s u : store.State) : Type 0 where
    begins : (sid rid question : String) → u ≡ (begin b s sid rid question).0 → Step s u
    progresses : (sid tid : String) (r : Round) → u ≡ (append_progress b s sid tid r).0 → Step s u
    cancels : (sid tid : String) → u ≡ (cancel b s sid tid).0 → Step s u
    answers : (sid tid : String) → u ≡ (request_answer_now b s sid tid).0 → Step s u
    reopens :
        (sid tid : String) (t : Turn)
        → get b s sid tid ≡ some t
        → t.status ≡ paused
        → u ≡ (save b s (reopened b t)).0
        → Step s u
    finishes :
        (sid tid : String) (stale : Turn) (a : Attempt)
        → Fits b sid tid stale
        → u ≡ (finish b s sid tid stale a).0
        → Step s u
    others : SameTurns b s u → Step s u

  pub data Reach (s : store.State) : store.State → Type 0 where
    here : Reach s s
    next : {t u : store.State} → Reach s t → Step t u → Reach s u

module _ (b : Backend) where
  open b use {store}

  from : {s u w : store.State} → u ≡ w → IsSafe b s w → IsSafe b s u
  from {s} e h = rw e h

  pub Step-IsSafe : {s u : store.State} → IsSound b s → Step b s u → IsSafe b s u
  Step-IsSafe {s} v (begins sid rid question e) = from e (begin-IsSafe b s sid rid question v)
  Step-IsSafe {s} v (progresses sid tid r e) = from e (append_progress-IsSafe b s sid tid r v)
  Step-IsSafe {s} v (cancels sid tid e) = from e (cancel-IsSafe b s sid tid v)
  Step-IsSafe {s} v (answers sid tid e) = from e (request_answer_now-IsSafe b s sid tid v)
  Step-IsSafe {s} v (reopens sid tid t g _ e) = from e (reopen-IsSafe b s sid tid t v g)
  Step-IsSafe {s} v (finishes sid tid stale a f e) = from e (finish-IsSafe b s sid tid stale a v f)
  Step-IsSafe v (others h) = record { sound = SameTurns-IsSound b h v; keeps = SameTurns-Keeps b h }

  -- From a sound store, however the sections of any number of threads follow one another: every
  -- turn document stays well formed (events numbered 0, 1, … without a gap, the last one telling
  -- the status, and an id of 20 characters without a slash) and at its own key, and no turn that
  -- was there is lost, changes its identity or loses or reorders an event.
  pub Reach-IsSafe : {s u : store.State} → IsSound b s → Reach b s u → IsSafe b s u
  Reach-IsSafe v here = IsSafe-refl b v
  Reach-IsSafe v (next r st) = let f = Reach-IsSafe v r in IsSafe-trans b f (Step-IsSafe f.sound st)

  -- what holds of the turn that a section returns, if it returns one
  abbrev OkFits : String → String → Result Turn → Type 0
  OkFits sid tid (ok t) = Fits b sid tid t
  OkFits sid tid (err _) = Unit

  run-IsSafe :
      (s : store.State) (execute : store.State → store.State × Attempt) (sid tid : String)
      (r : store.State × Result Turn)
      → ((w : store.State) → IsSound b w → IsSafe b w (execute w).0)
      → IsSafe b s r.0
      → OkFits sid tid r.1
      → IsSafe b s (run b execute sid tid r).0
  unfolding run
  run-IsSafe s execute sid tid (w, err e) safe h fits = h
  run-IsSafe s execute sid tid (w, ok t) safe h fits =
      let g = IsSafe-trans b h (safe w h.sound) in
      IsSafe-trans b g (finish-IsSafe b (execute w).0 sid tid t (execute w).1 g.sound fits)

  -- A save that goes through returns its turn, and the turn's key is one that the store accepts.
  save-OkFits :
      (s : store.State) (sid tid : String) (t : Turn)
      → IsNumbered 0 t.events
      → IsId t.turn_id
      → (store.accepts (own_key b t) ≡ true → store.same (own_key b t) (turn_key sid tid) ≡ true)
      → OkFits sid tid (save b s t).1
  unfolding save
  save-OkFits s sid tid t n i place = elim (Option-cases (store.write s (own_key b t) (turn t))) [
    | inl e ↦ rw (e, save) tt
    | inr (u, e) ↦
        rw (e, save)
          (record {
            numbered = n;
            named = i;
            place = elim (Bool-cases (store.accepts (own_key b t))) [
              | inl yes' ↦ place yes'
              | inr no' ↦ cc (store.write_refused s (own_key b t) (turn t) no')
            ];
          })
  ]

  -- A whole `start` on a sound store leaves it sound and keeps every turn that was there, whether
  -- the request is new, repeated or in conflict and whether `execute` returns or raises, provided
  -- that what `execute` does to the store, other threads included, does so too.
  pub start-IsSafe :
      (s : store.State) (sid rid question : String) (execute : store.State → store.State × Attempt)
      → IsSound b s
      → ((w : store.State) → IsSound b w → IsSafe b w (execute w).0)
      → IsSafe b s (start b s sid rid question execute).0
  unfolding start
  start-IsSafe s sid rid question execute v safe =
      let tid = compute_turn_id b sid rid in
      elim (Option-cases (get b s sid tid)) [
        | inl e ↦
            rw (e, start)
              (run-IsSafe s execute sid tid (begin b s sid rid question) safe
                (begin-IsSafe b s sid rid question v)
                (unfold begin in
                  (rw (e, begin)
                    (save-OkFits s sid tid (new_turn b sid rid question) (refl, tt)
                      (compute_turn_id-IsId b sid rid) (λ ok'. store.same_refl _ ok')))))
        | inr (t, e) ↦ rw (e, start) (IsSafe-refl b v)
      ]

  -- A whole `resume` on a sound store leaves it sound and keeps every turn that was there, whether
  -- the turn is unknown, paused or in another status and whether `execute` returns or raises,
  -- provided that what `execute` does to the store, other threads included, does so too.
  pub resume-IsSafe :
      (s : store.State) (sid tid : String) (execute : store.State → store.State × Attempt)
      → IsSound b s
      → ((w : store.State) → IsSound b w → IsSafe b w (execute w).0)
      → IsSafe b s (resume b s sid tid execute).0
  unfolding resume append
  resume-IsSafe s sid tid execute v safe = elim (Option-cases (get b s sid tid)) [
    | inl e ↦ rw (e, resume) (IsSafe-refl b v)
    | inr (t, e) ↦
        let t' = reopened b t in
        let held = get-Holds b s sid tid t e in
        let reopen = reopen-IsSafe b s sid tid t v e in
        rw (e, resume)
          (IsSafe-if b s (is_paused t.status) _ _
            (λ _. rw found-state (
              run-IsSafe s execute sid tid (save b s t') safe reopen (
                save-OkFits s sid tid t'
                  (append-IsNumbered (record t { status = active }) tool_progress _
                    (v.is_turn _ t held).numbered)
                  (v.is_turn _ t held).named (λ _. v.keyed _ t held))))
            (λ _. IsSafe-refl b v))
  ]
