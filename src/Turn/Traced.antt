-- ===== src/Turn/Traced.antt =====
-- What `render_execution_trace` of web/execution_trace.py does to the turns in the store: nothing.
use dexpi_datalog.Prelude.{
  String, ◌≡◌, sym, ◌∙◌, inl, inr, true, Option, none, some, List, [], ◌∷◌, Option-cases,
  Bool-cases,
}
use dexpi_datalog.Json.{Json, arr}
use dexpi_datalog.Store.Key.Beside.{is_flat}
use dexpi_datalog.Trace.Render.{
  Group, Rendering, envelopes, refused, no_status, trace_key, event_id_of, detail_of, render_group,
  render_groups, and_then, render_execution_trace,
}
use dexpi_datalog.Turn.Defs.{Turn, turn, value, Backend}
use dexpi_datalog.Turn.Keys.{IsEventId, event_id_of-IsEventId, keys_apart}
use dexpi_datalog.Turn.Sound.{IsSound, SameTurns, SameTurns-IsSound}

no_turn : {X : Type 0} (v : Json) (t : Turn) → some (value v) ≡ some (turn t) → X
no_turn v t h = cc

module _ (b : Backend) where
  open b use {store, texts}

  SameTurns-refl : (s : store.State) → SameTurns b s s
  SameTurns-refl s = record { forth = λ k t p. p; back = λ k t p. p }

  SameTurns-trans : {s u w : store.State} → SameTurns b s u → SameTurns b u w → SameTurns b s w
  SameTurns-trans f g = record {
    forth = λ k t p. g.forth k t (f.forth k t p);
    back = λ k t p. f.back k t (g.back k t p);
  }

  -- A write at the key of a trace artifact, of a turn with a flat id, moves no turn.
  write-SameTurns :
      (s u : store.State) (sid tid eid : String) (v : Json)
      → IsSound b s
      → is_flat tid ≡ true
      → IsEventId eid
      → store.write s (trace_key sid tid eid) (value v) ≡ some u
      → SameTurns b s u
  write-SameTurns s u sid tid eid v sound f k e = record {
    forth = λ j t p. elim (Bool-cases (store.same (trace_key sid tid eid) j)) [
      | inl here ↦ absurd (
          keys_apart b t.session_id t.turn_id sid tid eid (sound.is_turn j t p).named f k
            (store.same_parts _ _ (sound.keyed j t p) ∙ sym (store.same_parts _ _ here)))
      | inr away ↦ store.read-write s u _ j _ e ∙ rw (away, p)
    ];
    back = λ j t p. elim (Bool-cases (store.same (trace_key sid tid eid) j)) [
      | inl here ↦ no_turn v t (sym (rw here at (store.read-write s u _ j _ e)) ∙ p)
      | inr away ↦ sym (rw away at (store.read-write s u _ j _ e)) ∙ p
    ];
  }

  render_group-SameTurns :
      (sid tid : String) (fallback : List String) (s : store.State) (g : Group)
      → IsSound b s
      → is_flat tid ≡ true
      → SameTurns b s (render_group store value texts sid tid fallback s g).0
  unfolding render_group
  render_group-SameTurns sid tid fallback s g sound f =
      elim (Option-cases
        (store.write s (trace_key sid tid (event_id_of texts tid g)) (value (detail_of texts g)))) [
          | inl e ↦ rw (e, render_group) (SameTurns-refl s)
          | inr (u, e) ↦
              rw (e, render_group)
                (write-SameTurns s u sid tid _ _ sound f (event_id_of-IsEventId b tid g) e)
        ]

  and_then-SameTurns :
      (s : store.State) (r q : store.State × Rendering)
      → SameTurns b s r.0
      → SameTurns b r.0 q.0
      → SameTurns b s (and_then r q).0
  and_then-SameTurns s (w, envelopes es) (u, envelopes fs) f g = SameTurns-trans f g
  and_then-SameTurns s (w, envelopes es) (u, refused) f g = SameTurns-trans f g
  and_then-SameTurns s (w, envelopes es) (u, no_status) f g = SameTurns-trans f g
  and_then-SameTurns s (w, refused) q f g = f
  and_then-SameTurns s (w, no_status) q f g = f

  render_groups-SameTurns :
      (sid tid : String) (fallback : List String) (s : store.State) (gs : List Group)
      → IsSound b s
      → is_flat tid ≡ true
      → SameTurns b s (render_groups store value texts sid tid fallback s gs).0
  unfolding render_groups
  render_groups-SameTurns sid tid fallback s [] sound f = SameTurns-refl s
  render_groups-SameTurns sid tid fallback s (g ∷ gs) sound f =
      let here = render_group-SameTurns sid tid fallback s g sound f in
      and_then-SameTurns s _ _ here (
        render_groups-SameTurns sid tid fallback
          (render_group store value texts sid tid fallback s g).0 gs
          (SameTurns-IsSound b here sound) f)

  pub render_execution_trace-SameTurns :
      (s : store.State) (sid tid : String) (raw : Option Json) (fallback : Json)
      → IsSound b s
      → is_flat tid ≡ true
      → SameTurns b s (render_execution_trace store value texts s sid tid raw fallback).0
  unfolding render_execution_trace
  render_execution_trace-SameTurns s sid tid none fallback sound f = SameTurns-refl s
  render_execution_trace-SameTurns s sid tid (some (arr xs)) fallback sound f =
      render_groups-SameTurns sid tid _ s _ sound f
  render_execution_trace-SameTurns s sid tid (some _) fallback sound f = SameTurns-refl s
