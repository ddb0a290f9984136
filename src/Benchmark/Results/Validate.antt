-- ===== src/Benchmark/Results/Validate.antt =====
-- `_validated_runs` and `_validate_episode` of benchmark/results.py.
pub mod Unique
use dexpi_datalog.Prelude.{
  String, Bool, true, false, not, ◌&&◌, Option, none, some, List, [], ◌∷◌, ◌==◌, string_eq, list_eq,
  contains, if◌then◌else◌,
}
use dexpi_datalog.Json.{Json, null, bool, str, obj, Fields, truthy}
use dexpi_datalog.Gate.Layers.{value_at}
use dexpi_datalog.Benchmark.Results.{
  ResultsReportError, no_runs, invalid_family, duplicate_run, not_an_object, no_question_id,
  no_grade, malformed_grade, invalid_slice, inconsistent_gating, no_category, category_on_trap,
  Checked, valid, refused, bind, BenchmarkRun, slices, slice_trap, question_categories,
  arm_families, episodes, is_one_of, is_text,
}

-- the error raised first, if any
abbrev pub first_of :
    Option ResultsReportError → Option ResultsReportError → Option ResultsReportError
first_of none later = later
first_of (some e) later = some e

abbrev pub is_bool : Json → Bool
is_bool (bool b) = true
is_bool _ = false

abbrev pub is_null : Json → Bool
is_null null = true
is_null _ = false

abbrev pub same_bool : Bool → Bool → Bool
same_bool true b = b
same_bool false b = not b

unfoldable pub validate_grade_fields :
    String → String → Fields → List String → Option ResultsReportError
validate_grade_fields path question grade [] = none
validate_grade_fields path question grade (name ∷ names) =
    let rest = validate_grade_fields path question grade names in
    if is_bool (value_at name grade) then rest else some (malformed_grade path question name)

abbrev pub graded_fields : List String
graded_fields = "passed" ∷ "verdict_match" ∷ "witness_match" ∷ []

unfoldable pub validate_category : String → String → Bool → Json → Option ResultsReportError
validate_category path question true category =
    if is_one_of question_categories category then none else some (no_category path question)
validate_category path question false category =
    if is_null category then none else some (category_on_trap path question)

unfoldable pub validate_slice : String → String → Fields → Option ResultsReportError
unfolding validate_category
validate_slice path question episode =
    let slice = value_at "slice" episode in
    let expected_gating = not (is_text slice_trap slice) in
    if is_one_of slices slice
    then (if same_bool (truthy (value_at "gating" episode)) expected_gating
        then validate_category path question expected_gating (value_at "category" episode)
        else some (inconsistent_gating path question))
    else some (invalid_slice path question)

unfoldable pub validate_graded : String → String → Fields → Json → Option ResultsReportError
unfolding validate_grade_fields validate_slice
validate_graded path question episode (obj grade) =
    first_of (validate_grade_fields path question grade graded_fields)
      (validate_slice path question episode)
validate_graded path question episode _ = some (no_grade path question)

unfoldable pub validate_identified : String → Fields → Json → Option ResultsReportError
unfolding validate_graded
validate_identified path episode (str question) =
    if question == ""
    then some (no_question_id path)
    else validate_graded path question episode (value_at "grade" episode)
validate_identified path episode _ = some (no_question_id path)

-- `_validate_episode`: the error that it raises, if any
unfoldable pub validate_episode : BenchmarkRun → Json → Option ResultsReportError
unfolding validate_identified
validate_episode run (obj episode) =
    validate_identified run.report_path episode (value_at "question_id" episode)
validate_episode run _ = some (not_an_object run.report_path)

unfoldable pub validate_episodes : BenchmarkRun → List Json → Option ResultsReportError
unfolding validate_episode
validate_episodes run [] = none
validate_episodes run (e ∷ es) = first_of (validate_episode run e) (validate_episodes run es)

-- `for episode in _episodes(run): _validate_episode(run, episode)`
abbrev pub validate_all : BenchmarkRun → Checked (List Json) → Option ResultsReportError
validate_all run (valid es) = validate_episodes run es
validate_all run (refused e) = some e

unfoldable pub validate_runs : List (List String) → List BenchmarkRun → Option ResultsReportError
unfolding validate_episodes episodes
validate_runs seen [] = none
validate_runs seen (run ∷ runs) =
    let key = run.configuration ∷ run.model ∷ [] in
    let rest = validate_runs (key ∷ seen) runs in
    if contains arm_families run.arm_family
    then (if contains seen key
        then some (duplicate_run run.configuration run.model)
        else first_of (validate_all run (episodes run)) rest)
    else some (invalid_family run.arm_id run.arm_family)

-- `_validated_runs`
unfoldable pub validated_runs : List BenchmarkRun → Checked (List BenchmarkRun)
unfolding validate_runs
validated_runs [] = refused no_runs
validated_runs (run ∷ runs) = elim (validate_runs [] (run ∷ runs)) [
  | none ↦ valid (run ∷ runs)
  | some e ↦ refused e
]
