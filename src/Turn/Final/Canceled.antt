-- ===== src/Turn/Final/Canceled.antt =====
-- A canceled turn is final.
use mathlib.Core.Path.{ap₂}
use dexpi_datalog.Prelude.{String, ◌≡◌, sym, ap, ◌∙◌, inl, inr, some, arith, Option-cases}
use dexpi_datalog.Json.{Fields}
use dexpi_datalog.Turn.Defs.{
  Status, canceled, failed, failure, Turn, Attempt, returned, raised, turn_key, is_canceled,
  Backend,
}
use dexpi_datalog.Trace.Render.{Rendering, envelopes, refused, no_status}
use dexpi_datalog.Turn.Keys.{IsId}
use dexpi_datalog.Turn.Outcome.{append_result_events, trace_of, outcome_of}
use dexpi_datalog.Turn.Outcome.Kept.{add_outcome-Closes}
use dexpi_datalog.Turn.Invariant.{Continues, Continues-trans, Grows-append, Grows-relabel}
use dexpi_datalog.Turn.Lifecycle.{get, save, save_result, settle, finish, reopened}
use dexpi_datalog.Turn.Sound.{Holds, own_key, IsSound, SameTurns, SameTurns-IsSound}
use dexpi_datalog.Turn.Sections.{get-Holds, get-not_Holds}
use dexpi_datalog.Turn.Settle.{Fits, trace_of-SameTurns}
use dexpi_datalog.Turn.Steps.{
  Step, begins, progresses, cancels, answers, reopens, finishes, others, Reach, here, next,
  Step-IsSafe,
}
use dexpi_datalog.Turn.Final.{
  Stands, Stands-refl, Stands-if, Stands-save, Stands-fresh, begin-Stands, append_progress-Stands,
  cancel-Stands, request_answer_now-Stands,
}

module _ (b : Backend) where
  open b use {store}

  -- Every later state of the turn may be saved, also after a trace was written.
  abbrev MayWrite : store.State → Turn → Type 0
  MayWrite s t =
      (u : store.State)
      → SameTurns b s u
      → (t' : Turn) → Continues t t'
      → Stands b u (save b u t').0

  save_result-Stands :
      (s : store.State) (t : Turn) (r : Fields) (p : store.State × Rendering)
      → MayWrite s t
      → SameTurns b s p.0
      → Stands b s (save_result b (outcome_of b (record t { result = some r }) r p)).0
  save_result-Stands s t r (u, refused) write apart = record {
    canceled_kept = λ k d p _. apart.forth k d p;
  }
  save_result-Stands s t r (u, no_status) write apart = record {
    canceled_kept = λ k d p _. apart.forth k d p;
  }
  save_result-Stands s t r (u, envelopes trace) write apart =
      let saved = write u apart _ (
        Continues-trans (Grows-relabel t t.status (some r) t.steering).continues
          (add_outcome-Closes b (record t { result = some r }) trace r).grows.continues) in
      record { canceled_kept = λ k d p over. saved.canceled_kept k d (apart.forth k d p) over }

  settle-Stands :
      (s : store.State) (t : Turn) (a : Attempt)
      → IsSound b s
      → IsId t.turn_id
      → MayWrite s t
      → Stands b s (settle b s t a).0
  unfolding settle append_result_events
  settle-Stands s t (raised m) v i write =
      write s (record { forth = λ k d p. p; back = λ k d p. p }) _
        (Continues-trans (Grows-relabel t failed t.result t.steering).continues
          (Grows-append (record t { status = failed }) failure _).continues)
  settle-Stands s t (returned r) v i write =
      let t0 = record t { result = some r } in
      save_result-Stands s t r (trace_of b s t0 r) write (trace_of-SameTurns b s t0 r v i)

  own : {t t' : Turn} → Continues t t' → own_key b t' ≡ own_key b t
  own c = ap₂ turn_key c.same_session c.same_turn

  finish-Stands :
      (s : store.State) (sid tid : String) (stale : Turn) (a : Attempt)
      → IsSound b s
      → Fits b sid tid stale
      → Stands b s (finish b s sid tid stale a).0
  unfolding finish
  finish-Stands s sid tid stale a v fits = elim (Option-cases (get b s sid tid)) [
    | inl e ↦
        rw (e, finish)
          (settle-Stands s stale a v fits.named (λ u h t' c. Stands-fresh b u t' (λ d p.
            get-not_Holds b s sid tid e d (
              sym (store.read_same s _ _ fits.place)
              ∙ ap (store.read s) (sym (own c))
              ∙ h.back (own_key b t') d p))))
    | inr (t, e) ↦
        rw (e, finish)
          (Stands-if b s (is_canceled t.status) _ _ (λ _. Stands-refl b s)
            (λ live.
              settle-Stands s t a v (v.is_turn _ t (get-Holds b s sid tid t e)).named (λ u h t' c.
                Stands-save b u (turn_key sid tid) t t' (SameTurns-IsSound b h v)
                  (h.forth _ t (get-Holds b s sid tid t e)) (own c) (λ over. ground arith))))
  ]

  from : {s u w : store.State} → u ≡ w → Stands b s w → Stands b s u
  from {s} e h = rw e h

  Step-Stands : {s u : store.State} → IsSound b s → Step b s u → Stands b s u
  Step-Stands {s} v (begins sid rid question e) = from e (begin-Stands b s sid rid question)
  Step-Stands {s} v (progresses sid tid r e) = from e (append_progress-Stands b s sid tid v r)
  Step-Stands {s} v (cancels sid tid e) = from e (cancel-Stands b s sid tid v)
  Step-Stands {s} v (answers sid tid e) = from e (request_answer_now-Stands b s sid tid v)
  Step-Stands {s} v (reopens sid tid t g was e) = from e (
      Stands-save b s _ t (reopened b t) v (get-Holds b s sid tid t g)
        (own (
          Continues-trans (Grows-relabel t Status.active t.result t.steering).continues
            (Grows-append (record t { status = Status.active }) _ _).continues))
        (λ over. cc (was, over)))
  Step-Stands {s} v (finishes sid tid stale a f e) = from e (finish-Stands s sid tid stale a v f)
  Step-Stands {s} v (others h) = record { canceled_kept = λ k d p _. h.forth k d p }

  -- Cancellation is final: once a turn is canceled, no later sections, from any threads and in any
  -- order, change its record in the least; the outcome of the run that it interrupted is dropped.
  pub canceled_is_final :
      {s u : store.State} (k : String) (t : Turn)
      → IsSound b s
      → Reach b s u
      → Holds b s k t
      → t.status ≡ canceled
      → Holds b u k t
  canceled_is_final k t v r p over = (go v r).1.canceled_kept k t p over
    where
      go : {s u : store.State} → IsSound b s → Reach b s u → IsSound b u × Stands b s u
      go v here = (v, Stands-refl b _)
      go v (next r st) =
          let (w, f) = go v r in
          let g = Step-Stands w st in
          (
            (Step-IsSafe b w st).sound,
            record {
              canceled_kept = λ k d p over. g.canceled_kept k d (f.canceled_kept k d p over) over;
            },
          )
