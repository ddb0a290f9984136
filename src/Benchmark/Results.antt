-- ===== src/Benchmark/Results.antt =====
-- benchmark/results.py: runs, their episodes, and the errors of the report.
pub mod Validate
pub mod Fractions
pub mod Counts
pub mod Identity
pub mod Decision
use dexpi_datalog.Prelude.{
  String, Bool, true, false, not, ◌&&◌, List, [], ◌∷◌, ◌==◌, string_eq, contains,
}
use dexpi_datalog.Json.{
  Json, null, bool, str, arr, obj, Items, nil, cons, Fields, end, field, truthy,
}
use dexpi_datalog.Json
use dexpi_datalog.Gate.Layers.{value_at}

-- What a run or a report is refused for, with the path, question, field, category or model that
-- the message names; the last four are the exceptions that Python itself raises.
pub data ResultsReportError : Type 0 where
  no_runs : ResultsReportError
  invalid_family : String → String → ResultsReportError
  duplicate_run : String → String → ResultsReportError
  no_episodes : String → ResultsReportError
  not_an_object : String → ResultsReportError
  no_question_id : String → ResultsReportError
  no_grade : String → String → ResultsReportError
  malformed_grade : String → String → String → ResultsReportError
  invalid_slice : String → String → ResultsReportError
  inconsistent_gating : String → String → ResultsReportError
  no_category : String → String → ResultsReportError
  category_on_trap : String → String → ResultsReportError
  duplicate_question : String → String → ResultsReportError
  different_questions : String → String → ResultsReportError
  no_arm_a_run : String → ResultsReportError
  no_shared_configuration : ResultsReportError
  no_gating_episodes : String → String → String → ResultsReportError
  attribute_error key_error type_error index_error : ResultsReportError

pub data Checked (A : Type 0) : Type 0 where
  valid : A → Checked A
  refused : ResultsReportError → Checked A

abbrev pub bind : {A B : Type 0} → Checked A → (A → Checked B) → Checked B
bind (valid a) f = f a
bind (refused e) f = refused e

pub record BenchmarkRun : Type 0 where
  pub configuration : String
  pub arm_id : String
  pub arm_family : String
  pub model : String
  pub report : Fields
  pub report_path : String

abbrev pub slice_trap : String
slice_trap = "trap"

abbrev pub slices : List String
slices = "hand_authored" ∷ "synthetic" ∷ slice_trap ∷ []

abbrev pub compliance_universal : String
compliance_universal = "compliance_universal"

abbrev pub retrieval_local : String
retrieval_local = "retrieval_local"

abbrev pub question_categories : List String
question_categories = compliance_universal ∷ retrieval_local ∷ []

abbrev pub arm_families : List String
arm_families = "arm_a" ∷ "arm_b" ∷ "arm_c" ∷ []

abbrev listed : Items → List Json
listed nil = []
listed (cons x xs) = x ∷ listed xs

abbrev pub episodes_in : BenchmarkRun → Json → Checked (List Json)
episodes_in run (arr xs) = valid (listed xs)
episodes_in run _ = refused (no_episodes run.report_path)

-- `_episodes`
unfoldable pub episodes : BenchmarkRun → Checked (List Json)
unfolding value_at Json.get
episodes run = episodes_in run (value_at "episodes" run.report)

-- v in texts
abbrev pub is_one_of : List String → Json → Bool
is_one_of texts (str s) = contains texts s
is_one_of texts _ = false

-- v == s
abbrev pub is_text : String → Json → Bool
is_text s (str t) = t == s
is_text s _ = false

-- `_is_gating`
unfoldable pub is_gating : Fields → Bool
unfolding value_at Json.get
is_gating episode = not (is_text slice_trap (value_at "slice" episode))

abbrev mapping_or_empty : Json → Fields
mapping_or_empty (obj d) = d
mapping_or_empty _ = end

-- `_grade`
unfoldable pub grade_of : Fields → Fields
unfolding value_at Json.get
grade_of episode = mapping_or_empty (value_at "grade" episode)

-- `_exact_verdict_with_witnesses`
unfoldable pub exact_verdict_with_witnesses : Fields → Bool
unfolding grade_of value_at Json.get
exact_verdict_with_witnesses episode =
    truthy (value_at "verdict_match" (grade_of episode))
    && truthy (value_at "witness_match" (grade_of episode))
