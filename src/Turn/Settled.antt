-- ===== src/Turn/Settled.antt =====
-- That `start` of web/turn_lifecycle.py comes to an end of its turn.
use mathlib.Core.Path.{subst, ap₂}
use dexpi_datalog.Prelude.{
  String, List, ◌≡◌, refl, sym, ap, ◌∙◌, inl, inr, Bool, true, false, none, some, Bool-cases,
  Option-cases, if◌then◌else◌,
}
use dexpi_datalog.Json
use dexpi_datalog.Json.{Json, Fields}
use dexpi_datalog.Turn.Defs.{
  Status, active, paused, canceled, failed, completed, failure, review_required, cancellation,
  completion, EventType, Turn, Document, turn, Attempt, returned, raised, Result, ok, turn_key,
  is_active, is_canceled, Backend, compute_turn_id, append,
}
use dexpi_datalog.Turn.Rendered.{HasFewEvents, render_execution_trace-Renders}
use dexpi_datalog.Turn.Keys.{IsId, compute_turn_id-IsId}
use dexpi_datalog.Turn.Outcome.{
  close, shown_of, append_result_events, trace_of, add_outcome, fallback_of,
}
use dexpi_datalog.Turn.Outcome.Kept.{add_outcome-Closes}
use dexpi_datalog.Turn.Lifecycle.{get, save, settle, finish, new_turn, begin, run, start}
use dexpi_datalog.Turn.Sound.{Holds, own_key, IsSound}
use dexpi_datalog.Turn.Sections.{IsSafe, get-Holds, begin-IsSafe}

canceled_inactive : (st : Status) → is_canceled st ≡ true → is_active st ≡ false
canceled_inactive active h = cc
canceled_inactive paused h = refl
canceled_inactive canceled h = refl
canceled_inactive failed h = refl
canceled_inactive completed h = refl

-- The turn is not active.
pub record IsEnded (t : Turn) : Type 0 where
  pub ended : is_active t.status ≡ false

append-IsEnded :
    (t : Turn) (st : Status) (kind : EventType) (p : Json)
    → is_active st ≡ false
    → IsEnded (append (record t { status = st }) kind p)
unfolding append
append-IsEnded t st kind p h = record { ended = h }

IsEnded-if : (c : Bool) (t u : Turn) → IsEnded t → IsEnded u → IsEnded (if c then t else u)
IsEnded-if true t u h k = h
IsEnded-if false t u h k = k

no_document : {X : Type 0} {d : Document} → none ≡ some d → X
no_document h = cc

module _ (b : Backend) where
  open b use {store}

  -- A turn is returned, and it is not active any more.
  abbrev pub IsSettled : store.State × Result Turn → Type 0
  IsSettled r = (u : store.State) × (t : Turn) × (r ≡ (u, ok t)) × IsEnded t

  save-IsSettled :
      (s : store.State) (t : Turn)
      → store.accepts (own_key b t) ≡ true
      → IsEnded t
      → IsSettled (save b s t)
  unfolding save
  save-IsSettled s t h ended =
      let (u, e) = store.write_accepted s (own_key b t) (turn t) h in (u, t, rw (e, save), ended)

  close-IsEnded : (t : Turn) (r : Fields) → IsEnded (close b t r)
  unfolding close
  close-IsEnded t r = IsEnded-if _ _ _ (append-IsEnded t paused review_required _ refl) (
      IsEnded-if _ _ _ (append-IsEnded t canceled cancellation _ refl) (
        IsEnded-if _ _ _ (append-IsEnded t failed failure _ refl)
          (append-IsEnded t completed completion _ refl)))

  add_outcome-IsEnded :
      (t : Turn) (trace : List Json) (r : Fields) → IsEnded (add_outcome b t trace r)
  unfolding add_outcome
  add_outcome-IsEnded t trace r = close-IsEnded (shown_of t trace r) r

  settle-IsSettled :
      (s : store.State) (t : Turn) (a : Attempt)
      → store.accepts (own_key b t) ≡ true
      → IsId t.turn_id
      → HasFewEvents a
      → IsSettled (settle b s t a)
  unfolding settle append append_result_events trace_of Json.get
  settle-IsSettled s t (raised m) h i few =
      save-IsSettled s _ h (append-IsEnded t failed failure _ refl)
  settle-IsSettled s t (returned r) h i few =
      let t0 = record t { result = some r } in
      let (u, trace, e) =
        render_execution_trace-Renders b s t.session_id t.turn_id (Json.get "trace_events" r)
          (fallback_of r) i.flat h few in
      let c = (add_outcome-Closes b t0 trace r).grows.continues in
      let same : own_key b (add_outcome b t0 trace r) ≡ own_key b t =
        ap₂ turn_key c.same_session c.same_turn in
      rw e (
        save-IsSettled u (add_outcome b t0 trace r) (ap store.accepts same ∙ h)
          (add_outcome-IsEnded t0 trace r))

  -- The key of a turn that is there is accepted.
  held_accepted :
      (s : store.State) (k : String) (t : Turn)
      → IsSound b s
      → Holds b s k t
      → store.accepts (own_key b t) ≡ true
  held_accepted s k t v p = elim (Bool-cases (store.accepts (own_key b t))) [
    | inl y ↦ y
    | inr n ↦
        let here = store.read_same s (own_key b t) k (v.keyed k t p) ∙ p in
        no_document (sym (store.read_refused s (own_key b t) n) ∙ here)
  ]

  finish-IsSettled :
      (s : store.State) (sid tid : String) (stale : Turn) (a : Attempt)
      → IsSound b s
      → store.accepts (own_key b stale) ≡ true
      → IsId stale.turn_id
      → HasFewEvents a
      → IsSettled (finish b s sid tid stale a)
  unfolding finish
  finish-IsSettled s sid tid stale a v h i few = elim (Option-cases (get b s sid tid)) [
    | inl e ↦ rw (e, finish) (settle-IsSettled s stale a h i few)
    | inr (t, e) ↦
        let accepted = held_accepted s (turn_key sid tid) t v (get-Holds b s sid tid t e) in
        let named = (v.is_turn _ t (get-Holds b s sid tid t e)).named in
        elim (Bool-cases (is_canceled t.status)) [
          | inl y ↦
              rw (e, finish) (rw y (s, t, refl, record { ended = canceled_inactive t.status y }))
          | inr n ↦ rw (e, finish) (rw n (settle-IsSettled s t a accepted named few))
        ]
  ]

  -- A request that is new, at a key that the store accepts, is answered: start returns a turn, and
  -- the turn is not active any more, whether execute returns or raises and whatever else happens
  -- meanwhile, provided that the store is sound and what execute does, other threads included,
  -- leaves it so, and that a result has 64 trace events at most.
  pub start_settles :
      (s : store.State) (sid rid question : String) (execute : store.State → store.State × Attempt)
      → IsSound b s
      → ((w : store.State) → IsSound b w → IsSafe b w (execute w).0)
      → ((w : store.State) → HasFewEvents (execute w).1)
      → store.accepts (turn_key sid (compute_turn_id b sid rid)) ≡ true
      → get b s sid (compute_turn_id b sid rid) ≡ none
      → IsSettled (start b s sid rid question execute)
  unfolding start run begin save
  start_settles s sid rid question execute v safe few accepted fresh =
      let tid = compute_turn_id b sid rid in
      let t = new_turn b sid rid question in
      let (u, e) = store.write_accepted s (own_key b t) (turn t) accepted in
      let begun : begin b s sid rid question ≡ (u, ok t) = rw (fresh, begin) (rw (e, save)) in
      let sound_u : IsSound b u =
        subst (λ (r : store.State × Result Turn). IsSound b r.0) begun
          (begin-IsSafe b s sid rid question v).sound in
      let after = (safe u sound_u).sound in
      rw (fresh, start)
        (rw begun (
          finish-IsSettled (execute u).0 sid tid t (execute u).1 after accepted
            (compute_turn_id-IsId b sid rid) (few u)))
