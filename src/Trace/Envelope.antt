-- ===== src/Trace/Envelope.antt =====
-- The parts of a trace event in web/execution_trace.py that are text: values that are safe to show,
-- the kind, the category, the status and the summary of an event, and its detail.
use dexpi_datalog.Prelude.{
  ℕ, String, Bool, ◌&&◌, ◌||◌, none, some, List, [], ◌∷◌, ◌==◌, string_eq, contains, take, leb, ltb,
  if◌then◌else◌,
}
use dexpi_datalog.Prelude.Dict
use dexpi_datalog.Prelude.Dict.{Dict}
use dexpi_datalog.Prelude.Sets.{distinct}
use dexpi_datalog.Prelude.Sort.{sort, text_le}
use dexpi_datalog.Prelude.Text.{◌⊕◌, slice_to, strip, occurs}
use dexpi_datalog.Json
use dexpi_datalog.Json.{
  ℤ, pos, negsuc, Json, null, bool, int, str, arr, obj, Items, nil, cons, Fields, end, field,
}
use dexpi_datalog.Gate.Layers.{value_at}

-- What the module calls and does not define: `str.lower`, `str` of a JSON value, sha256 as hex
-- digits, and of `re` the two full matches and the substitution that _event_kind makes.
pub record Texts : Type 0 where
  pub lower : String → String
  pub to_str : Json → String
  pub sha256_hex : String → String
  pub matches_kind : String → Bool
  pub matches_safe : String → Bool
  pub substitute_kind : String → String

abbrev pub max_evidence_references : ℕ
max_evidence_references = 25

abbrev event_kinds : Dict String String
event_kinds =
    ("template_proposed", "grounded_qa.routing.template_proposed")
    ∷ ("template_validated", "grounded_qa.validation.template")
    ∷ ("template_executed", "grounded_qa.execution.template")
    ∷ ("template_execution_failed", "grounded_qa.execution.template_failed")
    ∷ ("result_observed", "grounded_qa.evidence.result_observed")
    ∷ ("route_outcome", "grounded_qa.routing.outcome")
    ∷ []

abbrev trace_statuses : List String
trace_statuses = "blocked" ∷ "canceled" ∷ "completed" ∷ "failed" ∷ "pending" ∷ "running" ∷ []

abbrev safe_detail_fields : List String
safe_detail_fields =
    "template_id" ∷ "template_version" ∷ "outcome" ∷ "engine" ∷ "verdict" ∷ "status" ∷ "route"
    ∷ "code" ∷ []

-- s or default
abbrev pub or_text : String → String → String
or_text s default = if s == "" then default else s

-- s.lstrip(c), s.rstrip(c)
unfoldable lstrip_of : String → String → String
lstrip_of c String.[] = String.[]
lstrip_of c (String.◌∷◌ d s) =
    let rest = lstrip_of c s in if String.◌∷◌ d String.[] == c then rest else String.◌∷◌ d s

unfoldable rstrip_of : String → String → String
rstrip_of c String.[] = String.[]
rstrip_of c (String.◌∷◌ d s) =
    let rest = rstrip_of c s in
    if rest == "" && String.◌∷◌ d String.[] == c then String.[] else String.◌∷◌ d rest

-- s.endswith(p)
unfoldable pub has_end : String → String → Bool
has_end String.[] p = p == ""
has_end (String.◌∷◌ c s) p = String.◌∷◌ c s == p || has_end s p

abbrev detail_field : String → String → Fields → Fields
detail_field k value rest = if value == "" then rest else field k (str value) rest

abbrev witness_count_of : Json → Fields → Fields
witness_count_of (bool b) rest = field "witness_count" (bool b) rest
witness_count_of (int (pos n)) rest =
    if leb n 1000000 then field "witness_count" (int (pos n)) rest else rest
witness_count_of _ rest = rest

abbrev pub items_of : List String → Items
items_of [] = nil
items_of (x ∷ xs) = cons (str x) (items_of xs)

abbrev evidence_of : List String → Fields
evidence_of [] = end
evidence_of (x ∷ xs) = field "evidence_references" (arr (items_of (x ∷ xs))) end

-- `_category`
unfoldable pub kind_category : String → String
unfolding occurs
kind_category kind =
    if occurs ".routing." kind
    then "routing"
    else if occurs ".validation." kind
    then "validation"
    else if occurs ".execution." kind
    then "execution"
    else if occurs ".evidence." kind
    then "evidence"
    else "activity"

module _ (texts : Texts) where
  open texts use {lower, to_str, matches_kind, matches_safe, substitute_kind}

  -- `_safe_value`
  unfoldable pub safe_value : Json → String
  unfolding slice_to
  safe_value (str value) =
      let bounded = slice_to 128 value in if matches_safe bounded then bounded else ""
  safe_value _ = ""

  safe_values : Items → List String
  unfolding safe_value
  safe_values nil = []
  safe_values (cons x xs) =
      let rest = safe_values xs in
      let safe = safe_value x in if safe == "" then rest else safe ∷ rest

  -- `_string_list`
  unfoldable pub string_list : Json → List String
  unfolding safe_values distinct sort text_le
  string_list (arr xs) = take max_evidence_references (sort text_le (distinct (safe_values xs)))
  string_list _ = []

  -- `_event_kind`
  unfoldable pub event_kind : String → String
  unfolding strip slice_to lstrip_of rstrip_of Dict.get
  event_kind name = elim (Dict.get name event_kinds) [
    | some kind ↦ kind
    | none ↦
        let normalized = lower (strip (slice_to 128 name)) in
        if matches_kind normalized
        then normalized
        else "grounded_qa.activity."
          ⊕ or_text (slice_to 80 (rstrip_of "_" (lstrip_of "_" (substitute_kind normalized))))
              "unknown"
  ]

  detail_fields : List String → Fields → Fields → Fields
  unfolding safe_value value_at
  detail_fields [] raw rest = rest
  detail_fields (k ∷ ks) raw rest =
      detail_field k (safe_value (value_at k raw)) (detail_fields ks raw rest)

  -- `_sanitize_event_detail`
  unfoldable pub sanitize_event_detail : Fields → Fields
  unfolding detail_fields string_list value_at
  sanitize_event_detail raw = detail_fields safe_detail_fields raw (
      witness_count_of (value_at "witness_count" raw)
        (evidence_of (string_list (value_at "evidence_references" raw))))

  -- `_status`
  unfoldable pub status_of : String → Fields → String
  unfolding safe_value value_at has_end
  status_of kind detail =
      let status = lower (safe_value (value_at "status" detail)) in
      let outcome = lower (safe_value (value_at "outcome" detail)) in
      if contains trace_statuses status
      then status
      else if has_end kind "_failed" || contains ("rejected" ∷ "failed" ∷ []) outcome
      then "failed"
      else "completed"

  abbrev witness_suffix : Json → String
  witness_suffix (bool b) = " with " ⊕ (to_str (bool b) ⊕ " witness(es)")
  witness_suffix (int n) = " with " ⊕ (to_str (int n) ⊕ " witness(es)")
  witness_suffix _ = ""

  -- the routing outcome
  abbrev routing_summary : String → String → String
  routing_summary route outcome =
      if route == "" && outcome == ""
      then "Recorded routing outcome."
      else if route == ""
      then "Recorded routing outcome: " ⊕ (outcome ⊕ ".")
      else if outcome == ""
      then "Recorded routing outcome: " ⊕ (route ⊕ ".")
      else "Recorded routing outcome: " ⊕ (route ⊕ (": " ⊕ (outcome ⊕ ".")))

  -- `_summary`, before the number of occurrences
  summary_of : String → Fields → String
  unfolding safe_value value_at
  summary_of kind detail =
      let template_id = or_text (safe_value (value_at "template_id" detail)) "bundled template" in
      let outcome = safe_value (value_at "outcome" detail) in
      if kind == "grounded_qa.routing.template_proposed"
      then "Routed to template " ⊕ (template_id ⊕ ".")
      else if kind == "grounded_qa.validation.template"
      then "Validated template " ⊕ (template_id ⊕ (": " ⊕ (or_text outcome "completed" ⊕ ".")))
      else if kind == "grounded_qa.execution.template"
      then "Executed template "
        ⊕ (template_id
            ⊕ (" with "
                ⊕ (or_text (safe_value (value_at "engine" detail)) "reasoning engine" ⊕ ".")))
      else if kind == "grounded_qa.execution.template_failed"
      then "Template execution failed for " ⊕ (template_id ⊕ ".")
      else if kind == "grounded_qa.evidence.result_observed"
      then "Observed deterministic result: "
        ⊕ (or_text (safe_value (value_at "verdict" detail)) "result observed"
            ⊕ (witness_suffix (value_at "witness_count" detail) ⊕ "."))
      else if kind == "grounded_qa.routing.outcome"
      then routing_summary (safe_value (value_at "route" detail))
          (or_text (safe_value (value_at "status" detail)) outcome)
      else if kind == "grounded_qa.activity.omitted"
      then "Omitted "
        ⊕ (to_str (Json.get_or "omitted_count" (int (pos 0)) detail)
            ⊕ " additional trace event(s).")
      else "Recorded extension activity: " ⊕ (kind ⊕ ".")

  -- `_summary`
  unfoldable pub summary : String → Fields → ℕ → String
  unfolding summary_of rstrip_of slice_to
  summary kind detail count =
      let plain = summary_of kind detail in
      slice_to 160 (
        if ltb 1 count
        then rstrip_of "." plain ⊕ (" (" ⊕ (to_str (int (pos count)) ⊕ " occurrences)."))
        else plain)
