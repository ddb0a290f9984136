-- ===== src/Turn/Outcome.antt =====
-- `_append_result_events` of web/turn_lifecycle.py: the events that a result leaves in its turn.
pub mod Kept
use dexpi_datalog.Prelude.{
  String, Bool, true, false, not, ◌&&◌, ◌||◌, Option, none, some, List, [], ◌∷◌, ◌==◌, string_eq,
  contains, if◌then◌else◌,
}
use dexpi_datalog.Prelude.Text.{join}
use dexpi_datalog.Json
use dexpi_datalog.Json.{
  Json, str, arr, obj, Items, nil, cons, Fields, end, field, truthy, truthy_or_none, single,
}
use dexpi_datalog.Store.{ArtifactStore}
use dexpi_datalog.Trace.Render.{Rendering, envelopes, refused, no_status, render_execution_trace}
use dexpi_datalog.Turn.Defs.{
  Status, active, paused, canceled, failed, completed, execution_trace, text, evidence,
  review_required, cancellation, failure, completion, Turn, Backend, append, append_all, Result, ok,
  err, invalid_key, missing_status, value,
}

-- `turn["result"] = result`, and the answer's text, if there is one
abbrev pub add_text : Turn → Option Json → Turn
add_text t (some (str s)) = if s == "" then t else append t text (single "text" (str s))
add_text t _ = t

abbrev pub add_evidence : Turn → Json → Json → Turn
add_evidence t references highlight =
    if truthy references || truthy highlight
    then append t evidence
        (obj (field "evidence_references" references (field "evidence_highlight" highlight end)))
    else t

-- result.get("evidence_references", result.get("witnesses", []))
abbrev pub fallback_of : Fields → Json
unfolding Json.get_or
fallback_of r = Json.get_or "evidence_references" (Json.get_or "witnesses" (arr nil) r) r

-- The turn with its trace, its answer and its evidence.
abbrev pub shown_of : Turn → List Json → Fields → Turn
unfolding append_all Json.get Json.get_or
shown_of t trace r =
    let traced = append_all t execution_trace trace in
    let answered = add_text traced (Json.get "answer_text" r) in
    add_evidence answered (Json.get_or "evidence_references" (arr nil) r)
      (Json.get_or "evidence_highlight" (obj end) r)

module _ (b : Backend) where
  open b use {store, texts}

  -- [str(item["message"]) for item in diagnostics
  --  if isinstance(item, dict) and item.get("message")]
  messages : Items → List String
  messages nil = []
  messages (cons (obj d) xs) =
      let rest = messages xs in
      let m = Json.get "message" d in
      elim m [ none ↦ rest | some v ↦ if truthy v then texts.to_str v ∷ rest else rest ]
  messages (cons _ xs) = messages xs

  -- the data of a failure event: the diagnostics' messages surface as its own
  with_message : Fields → List String → Json
  with_message r [] = single "result" (obj r)
  with_message r (m ∷ ms) =
      obj (field "result" (obj r) (field "message" (str (join "; " (m ∷ ms))) end))

  failure_data : Fields → Option Json → Json
  unfolding messages with_message
  failure_data r (some (arr diagnostics)) = with_message r (messages diagnostics)
  failure_data r _ = single "result" (obj r)

  -- the final status, and the event that tells it
  unfoldable pub close : Turn → Fields → Turn
  unfolding failure_data
  close t r =
      let status = texts.to_str (Json.get_or "status" (str "answered") r) in
      if status == "needs_direction_review" || status == "needs_datalog_confirmation"
      then append (record t { status = paused }) review_required (single "review" (obj r))
      else if status == "canceled" || status == "cancelled"
      then append (record t { status = canceled }) cancellation (single "result" (obj r))
      else if status == "failed" || status == "execution_failed"
      then append (record t { status = failed }) failure (failure_data r (Json.get "diagnostics" r))
      else append (record t { status = completed }) completion (single "status" (str "completed"))

  -- The events of a result behind its trace.
  unfoldable pub add_outcome : Turn → List Json → Fields → Turn
  unfolding close
  add_outcome t trace r = close (shown_of t trace r) r

  abbrev pub outcome_of : Turn → Fields → store.State × Rendering → store.State × Result Turn
  outcome_of t r (s, envelopes trace) = (s, ok (add_outcome t trace r))
  outcome_of t r (s, refused) = (s, err invalid_key)
  outcome_of t r (s, no_status) = (s, err missing_status)

  unfoldable pub trace_of : store.State → Turn → Fields → store.State × Rendering
  unfolding render_execution_trace
  trace_of s t r =
      render_execution_trace store value texts s t.session_id t.turn_id (Json.get "trace_events" r)
        (fallback_of r)

  -- The turn with the events of its result, or the exception of its trace.
  unfoldable pub append_result_events : store.State → Turn → Fields → store.State × Result Turn
  unfolding add_outcome
  append_result_events s t r = outcome_of t r (trace_of s t r)
