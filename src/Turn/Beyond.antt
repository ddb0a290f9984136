-- ===== src/Turn/Beyond.antt =====
-- A result with more trace events than `render_execution_trace` of web/execution_trace.py renders.
use dexpi_datalog.Prelude.{
  ℕ, ◌-◌, ◌<◌, String, ◌≡◌, refl, inl, inr, false, some, List, [], ◌∷◌, ◌++◌, arith, Option-cases,
}
use dexpi_datalog.Json
use dexpi_datalog.Json.{Json, arr, Items, Fields}
use dexpi_datalog.Trace.Render.{
  Group, Rendering, envelopes, refused, no_status, trace_key, event_id_of, detail_of, count_items,
  max_trace_events, omitted_group, omitted_groups, group_events, take_items, render_group,
  render_groups, and_then, render_execution_trace,
}
use dexpi_datalog.Turn.Defs.{
  Turn, value, Backend, returned, Result, err, Error, invalid_key, missing_status, is_canceled,
}
use dexpi_datalog.Turn.Outcome.{append_result_events, trace_of, outcome_of, fallback_of}
use dexpi_datalog.Turn.Lifecycle.{get, save_result, settle, finish}
use dexpi_datalog.Turn.Sound.{IsSound}
use dexpi_datalog.Turn.Sections.{get-Holds}
use dexpi_datalog.Turn.Settle.{trace_of-SameTurns}
use dexpi_datalog.Turn.Again.{Holds-get}

-- The rendering raises.
Raises : Rendering → Type 0
Raises (envelopes es) = ⊥
Raises refused = Unit
Raises no_status = Unit

and_then-Raises_first : {S : Type 0} (r q : S × Rendering) → Raises r.1 → Raises (and_then r q).1
unfolding Raises
and_then-Raises_first (s, envelopes es) q h = absurd h
and_then-Raises_first (s, refused) q h = tt
and_then-Raises_first (s, no_status) q h = tt

and_then-Raises_second : {S : Type 0} (r q : S × Rendering) → Raises q.1 → Raises (and_then r q).1
unfolding Raises
and_then-Raises_second (s, envelopes es) (u, envelopes fs) h = absurd h
and_then-Raises_second (s, envelopes es) (u, refused) h = tt
and_then-Raises_second (s, envelopes es) (u, no_status) h = tt
and_then-Raises_second (s, refused) q h = tt
and_then-Raises_second (s, no_status) q h = tt

omitted_beyond :
    (n : ℕ) → max_trace_events < n → omitted_groups n ≡ omitted_group (n - max_trace_events) ∷ []
omitted_beyond n h = ground arith

module _ (b : Backend) where
  open b use {store, texts}

  omitted_group-Raises :
      (sid tid : String) (fallback : List String) (s : store.State) (n : ℕ)
      → Raises (render_group store value texts sid tid fallback s (omitted_group n)).1
  unfolding render_group Raises
  omitted_group-Raises sid tid fallback s n =
      let g = omitted_group n in
      elim (Option-cases
        (store.write s (trace_key sid tid (event_id_of texts tid g)) (value (detail_of texts g)))) [
          | inl e ↦ rw (e, render_group) tt
          | inr (u, e) ↦ rw (e, render_group) tt
        ]

  render_groups-Raises :
      (sid tid : String) (fallback : List String) (gs : List Group) (s : store.State) (n : ℕ)
      → Raises (render_groups store value texts sid tid fallback s (gs ++ omitted_group n ∷ [])).1
  unfolding render_groups
  render_groups-Raises sid tid fallback [] s n =
      and_then-Raises_first _ _ (omitted_group-Raises sid tid fallback s n)
  render_groups-Raises sid tid fallback (g ∷ gs) s n = and_then-Raises_second _ _ (
      render_groups-Raises sid tid fallback gs
        (render_group store value texts sid tid fallback s g).0 n)

  beyond-Raises :
      (s : store.State) (sid tid : String) (xs : Items) (fallback : Json)
      → max_trace_events < count_items xs
      → Raises (render_execution_trace store value texts s sid tid (some (arr xs)) fallback).1
  unfolding render_execution_trace
  beyond-Raises s sid tid xs fallback h =
      rw (omitted_beyond (count_items xs) h) (
        render_groups-Raises sid tid _ (group_events texts (take_items max_trace_events xs) []) s _)

  -- The section ends by raising, and leaves a state.
  abbrev pub RaisesIn : store.State → store.State × Result Turn → Type 0
  RaisesIn u r = (e : Error) × (r ≡ (u, err e))

  save_result-Raises :
      (t : Turn) (r : Fields) (p : store.State × Rendering)
      → Raises p.1
      → RaisesIn p.0 (save_result b (outcome_of b t r p))
  unfolding Raises
  save_result-Raises t r (u, envelopes es) h = absurd h
  save_result-Raises t r (u, refused) h = (invalid_key, refl)
  save_result-Raises t r (u, no_status) h = (missing_status, refl)

  -- A run that comes back with more than 64 trace events is lost: the section that takes up its
  -- result raises, and leaves the turn of the sound store as it was, active if it was active.
  pub finish_beyond :
      (s : store.State) (sid tid : String) (stale t : Turn) (r : Fields) (xs : Items)
      → IsSound b s
      → get b s sid tid ≡ some t
      → is_canceled t.status ≡ false
      → Json.get "trace_events" r ≡ some (arr xs)
      → max_trace_events < count_items xs
      → (u : store.State) × RaisesIn u (finish b s sid tid stale (returned r))
        × (get b u sid tid ≡ some t)
  unfolding finish settle append_result_events trace_of
  finish_beyond s sid tid stale t r xs v e live traced many =
      let t0 = record t { result = some r } in
      let held = get-Holds b s sid tid t e in
      let apart = trace_of-SameTurns b s t0 r v (v.is_turn _ t held).named in
      let raises : Raises (trace_of b s t0 r).1 =
        rw traced (beyond-Raises s t.session_id t.turn_id xs (fallback_of r) many) in
      (
        (trace_of b s t0 r).0,
        rw (e, finish) (rw live (save_result-Raises t0 r (trace_of b s t0 r) raises)),
        Holds-get b (trace_of b s t0 r).0 sid tid t (apart.forth _ t held),
      )
