-- ===== src/Turn/Rendered.antt =====
-- When `render_execution_trace` of web/execution_trace.py returns.
use mathlib.Core.List.{append-nil}
use dexpi_datalog.Prelude.{
  ℕ, ◌≤◌, String, ◌≡◌, refl, ap, inl, inr, true, Option, none, some, List, [], ◌∷◌, ◌++◌, arith,
  All, Bool-cases,
}
use dexpi_datalog.Json
use dexpi_datalog.Json.{Json, null, bool, int, str, arr, obj, Items, nil, cons, Fields}
use dexpi_datalog.Store.Key.Beside.{is_flat}
use dexpi_datalog.Trace.Render.{
  Group, Rendering, envelopes, trace_key, event_id_of, detail_of, envelope_of, status_shown,
  evidence_shown, add_event, same_group, take_items, count_items, max_trace_events, omitted_groups,
  group_events, render_group, render_groups, and_then, render_execution_trace,
}
use dexpi_datalog.Turn.Defs.{value, turn_key, Backend, Attempt, returned, raised}
use dexpi_datalog.Turn.Keys.{trace_accepted, event_id_of-IsEventId}

-- The group has a status.
pub HasStatus : Group → Type 0
HasStatus g = (st : String) × (g.status ≡ some st)

-- No events, or no more of them than the bound.
abbrev pub AreFew : Option Json → Type 0
AreFew (some (arr xs)) = count_items xs ≤ max_trace_events
AreFew _ = Unit

-- An attempt that raises, or whose result has no more trace events than are envelopes.
abbrev pub HasFewEvents : Attempt → Type 0
unfolding Json.get
HasFewEvents (raised _) = Unit
HasFewEvents (returned r) = AreFew (Json.get "trace_events" r)

add_event-HasStatus :
    (e : Group) (gs : List Group) → HasStatus e → All HasStatus gs → All HasStatus (add_event e gs)
unfolding HasStatus
add_event-HasStatus e [] h k = (h, tt)
add_event-HasStatus e (g ∷ gs) h k = elim (Bool-cases (same_group g e)) [
  | inl y ↦ rw y (h, k.1)
  | inr n ↦ rw n (k.0, add_event-HasStatus e gs h k.1)
]

status_shown-some :
    (o : Option String) (st : String) (f : String → Json)
    → o ≡ some st
    → status_shown o f ≡ envelopes (f st ∷ [])
status_shown-some o st f e = rw e

few_omitted : (n : ℕ) → n ≤ max_trace_events → omitted_groups n ≡ []
few_omitted n h = ground arith

module _ (b : Backend) where
  open b use {store, texts}

  group_events-HasStatus :
      (xs : Items) (gs : List Group) → All HasStatus gs → All HasStatus (group_events texts xs gs)
  unfolding group_events HasStatus
  group_events-HasStatus nil gs h = h
  group_events-HasStatus (cons (obj raw) xs) gs h =
      group_events-HasStatus xs _ (add_event-HasStatus _ gs (_, refl) h)
  group_events-HasStatus (cons null xs) gs h = group_events-HasStatus xs gs h
  group_events-HasStatus (cons (bool x) xs) gs h = group_events-HasStatus xs gs h
  group_events-HasStatus (cons (int x) xs) gs h = group_events-HasStatus xs gs h
  group_events-HasStatus (cons (str x) xs) gs h = group_events-HasStatus xs gs h
  group_events-HasStatus (cons (arr x) xs) gs h = group_events-HasStatus xs gs h

  -- The rendering returns envelopes.
  abbrev pub Renders : store.State × Rendering → Type 0
  Renders r = (u : store.State) × (es : List Json) × (r ≡ (u, envelopes es))

  and_then-Renders :
      (r q : store.State × Rendering) → Renders r → Renders q → Renders (and_then r q)
  and_then-Renders r q (u, es, e) (w, fs, f) = (w, es ++ fs, rw (e, f))

  render_group-Renders :
      (sid tid : String) (fallback : List String) (s : store.State) (g : Group)
      → is_flat tid ≡ true
      → store.accepts (turn_key sid tid) ≡ true
      → HasStatus g
      → Renders (render_group store value texts sid tid fallback s g)
  unfolding render_group HasStatus
  render_group-Renders sid tid fallback s g f h (st, e) =
      let k = event_id_of-IsEventId b tid g in
      let (u, w) =
        store.write_accepted s (trace_key sid tid (event_id_of texts tid g))
          (value (detail_of texts g)) (trace_accepted b sid tid _ f k h) in
      (
        u,
        envelope_of texts tid (event_id_of texts tid g) (evidence_shown texts g fallback) st g ∷ [],
        rw (w, render_group)
            (ap (λ t. (u, t))
              (status_shown-some g.status st
                (λ x.
                  envelope_of texts tid (event_id_of texts tid g) (evidence_shown texts g fallback)
                    x g)
                e)),
      )

  render_groups-Renders :
      (sid tid : String) (fallback : List String) (gs : List Group) (s : store.State)
      → is_flat tid ≡ true
      → store.accepts (turn_key sid tid) ≡ true
      → All HasStatus gs
      → Renders (render_groups store value texts sid tid fallback s gs)
  unfolding render_groups
  render_groups-Renders sid tid fallback [] s f h k = (s, [], refl)
  render_groups-Renders sid tid fallback (g ∷ gs) s f h k =
      and_then-Renders _ _ (render_group-Renders sid tid fallback s g f h k.0) (
        render_groups-Renders sid tid fallback gs
          (render_group store value texts sid tid fallback s g).0 f h k.1)

  append-nil_groups : (gs hs : List Group) → hs ≡ [] → All HasStatus gs → All HasStatus (gs ++ hs)
  append-nil_groups gs hs e h = rw e (rw append-nil h)

  pub render_execution_trace-Renders :
      (s : store.State) (sid tid : String) (raw : Option Json) (fallback : Json)
      → is_flat tid ≡ true
      → store.accepts (turn_key sid tid) ≡ true
      → AreFew raw
      → Renders (render_execution_trace store value texts s sid tid raw fallback)
  unfolding render_execution_trace
  render_execution_trace-Renders s sid tid none fallback f h few = (s, [], refl)
  render_execution_trace-Renders s sid tid (some (arr xs)) fallback f h few =
      render_groups-Renders sid tid _ _ s f h (
        append-nil_groups _ _ (few_omitted _ few)
          (group_events-HasStatus (take_items max_trace_events xs) [] tt))
  render_execution_trace-Renders s sid tid (some null) fallback f h few = (s, [], refl)
  render_execution_trace-Renders s sid tid (some (bool x)) fallback f h few = (s, [], refl)
  render_execution_trace-Renders s sid tid (some (int x)) fallback f h few = (s, [], refl)
  render_execution_trace-Renders s sid tid (some (str x)) fallback f h few = (s, [], refl)
  render_execution_trace-Renders s sid tid (some (obj x)) fallback f h few = (s, [], refl)
