-- ===== src/Turn/Lifecycle.antt =====
-- The methods of `TurnLifecycleStore` in web/turn_lifecycle.py. Each function is one section under
-- the lock; what other threads do while `execute` runs is part of what `execute` does to the store.
use dexpi_datalog.Prelude.{
  ℕ, String, ◌&&◌, ◌||◌, Option, none, some, [], ◌∷◌, ◌==◌, string_eq, if◌then◌else◌,
}
use dexpi_datalog.Json.{Json, null, int, str, obj, Fields, end, field, pos, single}
use dexpi_datalog.Trace.Progress.{sanitize_progress_tool_input, bound_reasoning_text}
use dexpi_datalog.Turn.Defs.{
  active, canceled, failed, tool_progress, cancellation, failure, Turn, Document, turn, Attempt,
  returned, raised, Result, ok, err, request_conflict, invalid_key, append, turn_key, is_active,
  is_canceled, is_paused, Backend, compute_turn_id,
}
use dexpi_datalog.Turn.Outcome.{append_result_events}

-- An artifact that is no turn is `none`, also where it is a dict, which the source hands on.
abbrev pub as_turn : Option Document → Option Turn
as_turn (some (turn t)) = some t
as_turn _ = none

-- data["tool_input"] and data["reasoning"] are left out where they are empty
abbrev with_input : Fields → Fields → Fields
with_input end rest = rest
with_input (field k v fs) rest = field "tool_input" (obj (field k v fs)) rest

abbrev with_reasoning : Option String → Fields
with_reasoning none = end
with_reasoning (some r) = field "reasoning" (str r) end

abbrev or_null : Option String → Json
or_null none = null
or_null (some s) = str s

-- What the tool loop reports of one round.
pub record Round : Type 0 where
  pub round_index : ℕ
  pub max_rounds : ℕ
  pub tool_name : Option String
  pub tool_input : Option Json
  pub reasoning : Option String

abbrev input_of : Option Json → Json
input_of none = null
input_of (some v) = v

pub data Directive : Type 0 where
  stop answer_now : Directive

module _ (b : Backend) where
  open b use {store, texts}

  unfoldable pub get : store.State → String → String → Option Turn
  get s session_id turn_id = as_turn (store.read s (turn_key session_id turn_id))

  -- `_save`; the turn names its own key
  unfoldable pub save : store.State → Turn → store.State × Result Turn
  save s t = elim (store.write s (turn_key t.session_id t.turn_id) (turn t)) [
    | none ↦ (s, err invalid_key)
    | some s' ↦ (s', ok t)
  ]

  -- A request that is known already returns its turn, if it asks the same question.
  abbrev pub reuse : Turn → String → String → Result Turn
  reuse existing request_id question =
      if existing.request_id == request_id && existing.question == question
      then ok existing
      else err request_conflict

  abbrev pub new_turn : String → String → String → Turn
  new_turn session_id request_id question = record {
    session_id = session_id;
    turn_id = compute_turn_id b session_id request_id;
    request_id = request_id;
    question = question;
    status = active;
    events =
        record { sequence = 0; kind = tool_progress; payload = single "status" (str "started") }
        ∷ [];
    result = none;
    steering = none;
  }

  unfoldable pub begin : store.State → String → String → String → store.State × Result Turn
  unfolding get save
  begin s session_id request_id question =
      elim (get s session_id (compute_turn_id b session_id request_id)) [
        | some existing ↦ (s, reuse existing request_id question)
        | none ↦ save s (new_turn session_id request_id question)
      ]

  -- An exception of the trace leaves the turn as it was stored.
  abbrev pub save_result : store.State × Result Turn → store.State × Result Turn
  save_result (s, ok t) = save s t
  save_result (s, err e) = (s, err e)

  -- what `start` and `resume` do with an attempt, unless the turn was canceled
  unfoldable pub settle : store.State → Turn → Attempt → store.State × Result Turn
  unfolding save
  settle s t (raised message) =
      save s (append (record t { status = failed }) failure (single "message" (str message)))
  settle s t (returned r) = save_result (append_result_events b s (record t { result = some r }) r)

  -- The end of `start` and of `resume`: the turn is read again, and `stale` is the turn as it was
  -- before `execute` ran. A cancellation that came in the meantime stands, and the outcome of the
  -- attempt is dropped.
  unfoldable pub finish : store.State → String → String → Turn → Attempt → store.State × Result Turn
  unfolding get settle
  finish s session_id turn_id stale attempt = elim (get s session_id turn_id) [
    | some current ↦
        if is_canceled current.status then (s, ok current) else settle s current attempt
    | none ↦ settle s stale attempt
  ]

  unfoldable pub run :
      (store.State → store.State × Attempt)
      → String
      → String
      → store.State × Result Turn
      → store.State × Result Turn
  unfolding finish
  run execute session_id turn_id (s, err e) = (s, err e)
  run execute session_id turn_id (s, ok t) =
      let (s', attempt) = execute s in finish s' session_id turn_id t attempt

  unfoldable pub start :
      store.State
      → String
      → String
      → String
      → (store.State → store.State × Attempt)
      → store.State × Result Turn
  unfolding begin run
  start s session_id request_id question execute =
      let turn_id = compute_turn_id b session_id request_id in
      elim (get s session_id turn_id) [
        | some existing ↦ (s, reuse existing request_id question)
        | none ↦ run execute session_id turn_id (begin s session_id request_id question)
      ]

  abbrev pub found : store.State × Result Turn → store.State × Result (Option Turn)
  found (s, ok t) = (s, ok (some t))
  found (s, err e) = (s, err e)

  abbrev pub reopened : Turn → Turn
  reopened t = append (record t { status = active }) tool_progress (single "status" (str "resumed"))

  unfoldable pub resume :
      store.State
      → String
      → String
      → (store.State → store.State × Attempt)
      → store.State × Result (Option Turn)
  unfolding get save run
  resume s session_id turn_id execute = elim (get s session_id turn_id) [
    | none ↦ (s, ok none)
    | some t ↦
        if is_paused t.status
        then found (run execute session_id turn_id (save s (reopened t)))
        else (s, ok (some t))
  ]

  round_data : Round → Json
  unfolding sanitize_progress_tool_input
  round_data r = obj (
      field "status" (str "round") (
        field "round" (int (pos r.round_index)) (
          field "max_rounds" (int (pos r.max_rounds)) (
            field "tool_name" (or_null r.tool_name) (
              with_input (sanitize_progress_tool_input texts.lower (input_of r.tool_input))
                (with_reasoning (bound_reasoning_text r.reasoning)))))))

  abbrev pub unit_of : store.State × Result Turn → store.State × Result (Unit {0})
  unit_of (s, ok t) = (s, ok tt)
  unit_of (s, err e) = (s, err e)

  unfoldable pub append_progress :
      store.State → String → String → Round → store.State × Result (Unit {0})
  unfolding get save round_data
  append_progress s session_id turn_id r = elim (get s session_id turn_id) [
    | none ↦ (s, ok tt)
    | some t ↦
        if is_active t.status
        then unit_of (save s (append t tool_progress (round_data r)))
        else (s, ok tt)
  ]

  unfoldable pub cancel : store.State → String → String → store.State × Result (Option Turn)
  unfolding get save
  cancel s session_id turn_id = elim (get s session_id turn_id) [
    | none ↦ (s, ok none)
    | some t ↦
        if is_active t.status || is_paused t.status
        then found (
            save s (
              append (record t { status = canceled }) cancellation
                (single "message" (str "The turn was canceled by the user."))))
        else (s, ok (some t))
  ]

  unfoldable pub request_answer_now :
      store.State → String → String → store.State × Result (Option Turn)
  unfolding get save
  request_answer_now s session_id turn_id = elim (get s session_id turn_id) [
    | none ↦ (s, ok none)
    | some t ↦
        if is_active t.status
        then found (save s (record t { steering = some "answer_now" }))
        else (s, ok (some t))
  ]

  abbrev directive_of : Option Turn → Option Directive
  directive_of none = none
  directive_of (some t) = if is_canceled t.status then some stop else elim t.steering [
    | none ↦ none
    | some d ↦ if d == "answer_now" then some answer_now else none
  ]

  unfoldable pub steering_directive : store.State → String → String → Option Directive
  unfolding get
  steering_directive s session_id turn_id = directive_of (get s session_id turn_id)
