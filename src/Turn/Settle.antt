-- ===== src/Turn/Settle.antt =====
-- The last section of `start` and of `resume`.
use mathlib.Core.Path.{subst, ap₂}
use dexpi_datalog.Prelude.{String, ◌≡◌, refl, sym, ◌∙◌, inl, inr, true, some, Option-cases}
use dexpi_datalog.Json
use dexpi_datalog.Json.{Json, Fields}
use dexpi_datalog.Turn.Defs.{
  failed, failure, Turn, Attempt, returned, raised, turn_key, is_canceled, Backend,
}
use dexpi_datalog.Trace.Render.{Rendering, envelopes, refused, no_status}
use dexpi_datalog.Turn.Keys.{IsId}
use dexpi_datalog.Turn.Traced.{render_execution_trace-SameTurns}
use dexpi_datalog.Turn.Outcome.{append_result_events, trace_of, outcome_of, fallback_of}
use dexpi_datalog.Turn.Outcome.Kept.{add_outcome-Closes}
use dexpi_datalog.Turn.Invariant.{
  IsNumbered, Continues, Continues-trans, Grows-append, Grows-relabel, append-IsTurn,
}
use dexpi_datalog.Turn.Lifecycle.{get, save, save_result, settle, finish}
use dexpi_datalog.Turn.Sound.{
  Holds, own_key, IsSound, SameTurns, Keeps, SameTurns-IsSound, SameTurns-Keeps, save-IsSound,
  save-Keeps, save-Keeps_new,
}
use dexpi_datalog.Turn.Sections.{
  IsSafe, IsSafe-refl, IsSafe-trans, IsSafe-if, get-Holds, get-not_Holds,
}

module _ (b : Backend) where
  -- The turn that `finish` falls back to is well formed and belongs where `finish` looks.
  pub record Fits (sid tid : String) (stale : Turn) : Type 0 where
    pub numbered : IsNumbered 0 stale.events
    pub named : IsId stale.turn_id
    pub place : b.store.same (own_key b stale) (turn_key sid tid) ≡ true

module _ (b : Backend) where
  open b use {store}

  -- A turn that may go on: also after a trace was written, saving a later state of it loses no turn.
  record Base (s : store.State) (t : Turn) : Type 0 where
    numbered : IsNumbered 0 t.events
    named : IsId t.turn_id
    writes :
        (u : store.State)
        → SameTurns b s u
        → (t' : Turn) → Continues t t'
        → Keeps b u (save b u t').0

  Base-held : (s : store.State) (k : String) (t : Turn) → IsSound b s → Holds b s k t → Base s t
  Base-held s k t v p = record {
    numbered = (v.is_turn k t p).numbered;
    named = (v.is_turn k t p).named;
    writes = λ u h t' c. save-Keeps b u t t' k (SameTurns-IsSound b h v) (h.forth k t p) c;
  }

  Base-fresh :
      (s : store.State) (t : Turn)
      → IsNumbered 0 t.events
      → IsId t.turn_id
      → ((d : Turn) → ¬ Holds b s (own_key b t) d)
      → Base s t
  Base-fresh s t n i fresh = record {
    numbered = n;
    named = i;
    writes = λ u h t' c. save-Keeps_new b u t' (λ d p. fresh d (
        subst (λ k. Holds b s k d) (ap₂ turn_key c.same_session c.same_turn)
          (h.back (own_key b t') d p)));
  }

  pub trace_of-SameTurns :
      (s : store.State) (t : Turn) (r : Fields)
      → IsSound b s
      → IsId t.turn_id
      → SameTurns b s (trace_of b s t r).0
  unfolding trace_of
  trace_of-SameTurns s t r v i =
      render_execution_trace-SameTurns b s t.session_id t.turn_id (Json.get "trace_events" r)
        (fallback_of r) v i.flat

  -- However the trace ends, what is left is safe.
  save_result-IsSafe :
      (s : store.State) (t : Turn) (r : Fields) (p : store.State × Rendering)
      → IsSound b s
      → Base s t
      → SameTurns b s p.0
      → IsSafe b s (save_result b (outcome_of b (record t { result = some r }) r p)).0
  save_result-IsSafe s t r (u, refused) v base apart = record {
    sound = SameTurns-IsSound b apart v;
    keeps = SameTurns-Keeps b apart;
  }
  save_result-IsSafe s t r (u, no_status) v base apart = record {
    sound = SameTurns-IsSound b apart v;
    keeps = SameTurns-Keeps b apart;
  }
  save_result-IsSafe s t r (u, envelopes trace) v base apart =
      let closes = add_outcome-Closes b (record t { result = some r }) trace r in
      let v' = SameTurns-IsSound b apart v in
      IsSafe-trans b (record { sound = v'; keeps = SameTurns-Keeps b apart })
        (record {
          sound = save-IsSound b _ _ v' (closes.is_turn base.numbered base.named);
          keeps = base.writes _ apart _ (
              Continues-trans (Grows-relabel t t.status (some r) t.steering).continues
                closes.grows.continues);
        })

  settle-IsSafe :
      (s : store.State) (t : Turn) (a : Attempt)
      → IsSound b s
      → Base s t
      → IsSafe b s (settle b s t a).0
  unfolding settle append_result_events
  settle-IsSafe s t (raised m) v base = record {
    sound =
        save-IsSound b s _ v
          (append-IsTurn (record t { status = failed }) failure _ base.numbered base.named refl);
    keeps =
        base.writes s (record { forth = λ k d p. p; back = λ k d p. p }) _
          (Continues-trans (Grows-relabel t failed t.result t.steering).continues
            (Grows-append (record t { status = failed }) failure _).continues);
  }
  settle-IsSafe s t (returned r) v base =
      let t0 = record t { result = some r } in
      save_result-IsSafe s t r (trace_of b s t0 r) v base (trace_of-SameTurns s t0 r v base.named)

  pub finish-IsSafe :
      (s : store.State) (sid tid : String) (stale : Turn) (a : Attempt)
      → IsSound b s
      → Fits b sid tid stale
      → IsSafe b s (finish b s sid tid stale a).0
  unfolding finish
  finish-IsSafe s sid tid stale a v fits = elim (Option-cases (get b s sid tid)) [
    | inl e ↦
        rw (e, finish)
          (settle-IsSafe s stale a v (
            Base-fresh s stale fits.numbered fits.named
              (λ d p. get-not_Holds b s sid tid e d (sym (store.read_same s _ _ fits.place) ∙ p))))
    | inr (t, e) ↦
        rw (e, finish)
          (IsSafe-if b s (is_canceled t.status) _ _ (λ _. IsSafe-refl b v)
            (λ _.
              settle-IsSafe s t a v
                (Base-held s (turn_key sid tid) t v (get-Holds b s sid tid t e))))
  ]
