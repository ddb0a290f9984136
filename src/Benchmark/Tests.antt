-- ===== src/Benchmark/Tests.antt =====
-- The benchmark's decision on small runs, and instances of its theorems.
use dexpi_datalog.Prelude.{
  ◌==◌, string_eq, if◌then◌else◌, Option, some, ℕ, ◌+◌, ◌≤◌, String, ◌≡◌, ◌↔◌, refl, Bool, true,
  false, none, List, [], ◌∷◌, keep,
}
use dexpi_datalog.Json
use dexpi_datalog.Json.{Json, null, bool, str, arr, obj, Items, nil, cons, Fields, end, field}
use dexpi_datalog.Benchmark.Contract.{TrapRubric, TrapJudgment, StructuredAnswer, GroundTruth}
use dexpi_datalog.Benchmark.Grader.{known_node_ids, grade}
use dexpi_datalog.Benchmark.Grader.Passed.{IsCreditable, grade_passes_iff}
use dexpi_datalog.Benchmark.Grader.Metrics.{IsMeasured, grade-IsMeasured}
use dexpi_datalog.Benchmark.Grader.Passed.{IsPraised}
use dexpi_datalog.Benchmark.Rubric.{parse_judgment, load_scripted_trap_judgments, invalid_judgment}
use dexpi_datalog.Benchmark.Rubric.Credit.{IsPraising, parse_judgment_praises_iff}
use dexpi_datalog.Benchmark.Results.{valid, BenchmarkRun}
use dexpi_datalog.Benchmark.Results.Validate.{validate_episodes}
use dexpi_datalog.Benchmark.Results.Counts.{Counts, zero_counts, count_episodes}
use dexpi_datalog.Benchmark.Results.Counts.Total.{number_gating, count_episodes_total}
use dexpi_datalog.Benchmark.Results.Identity.{identities}
use dexpi_datalog.Benchmark.Results.Decision.{
  Decision, decision, decision_of, decision_stand_down, Shared,
}
use dexpi_datalog.Benchmark.Results.Decision.Rule.{
  IsBarred, report_decision, report_stands_down_iff,
}
use dexpi_datalog.Benchmark.Results.Decision.Ignored.{
  decision_other_runs, is_decisive, is_no_trap, trap_never_gates,
}

-- str on the values that are texts
abbrev to_str : Json → String
to_str (str s) = s
to_str _ = "?"

abbrev episode : String → String → Bool → Json → Bool → Json
episode id slice gating category exact = obj (
    field "question_id" (str id) (
      field "slice" (str slice) (
        field "gating" (bool gating) (
          field "category" category (
            field "grade"
              (obj (
                field "passed" (bool exact)
                  (field "verdict_match" (bool exact) (field "witness_match" (bool exact) end))))
              end)))))

abbrev first_question : Json
first_question = episode "q1" "synthetic" true (str "compliance_universal") true

abbrev second_question : Json
second_question = episode "q2" "hand_authored" true (str "retrieval_local") true

abbrev trap_question : Json
trap_question = episode "q3" "trap" false null false

abbrev asked : Items
asked = cons first_question (cons trap_question (cons second_question nil))

abbrev questions : List Json
questions = first_question ∷ trap_question ∷ second_question ∷ []

abbrev run_by : String → BenchmarkRun
run_by model = record {
  configuration = "a-direct";
  arm_id = "arm";
  arm_family = "arm_a";
  model = model;
  report = field "episodes" (arr asked) end;
  report_path = "report.json";
}

abbrev runs : List BenchmarkRun
runs = run_by "deepseek" ∷ run_by "gpt" ∷ run_by "sonnet" ∷ []

abbrev counts : Counts
counts = record {
  compliance = record { passed = 1; questions = 1 };
  retrieval = record { passed = 1; questions = 1 };
}

abbrev shared : Shared
shared = record { configuration = "a-direct"; sonnet_run = run_by "sonnet"; gpt_run = run_by "gpt" }

abbrev expected : Decision
unfolding decision_of
expected =
    decision_of (shared ∷ [])
      (record { shared = shared; sonnet_counts = counts; gpt_counts = counts })

decides : report_decision to_str runs ≡ valid expected
unfolding report_decision dexpi_datalog.Prelude.Dict.put dexpi_datalog.Prelude.Dict.get
    dexpi_datalog.Prelude.Sort.sort
decides = refl

report_stands_down_iff_example : (expected.verdict ≡ decision_stand_down) ↔ IsBarred to_str runs
report_stands_down_iff_example = report_stands_down_iff to_str runs expected decides

decision_other_runs_example : decision to_str (keep is_decisive runs) ≡ decision to_str runs
decision_other_runs_example = decision_other_runs to_str (keep is_decisive runs) runs refl

passes_validation : validate_episodes (run_by "gpt") questions ≡ none
unfolding validate_episodes dexpi_datalog.Gate.Layers.value_at Json.get
passes_validation = refl

count_episodes_total_example :
    (d : Counts) × (count_episodes to_str questions zero_counts ≡ valid d)
    × (d.compliance.questions + d.retrieval.questions ≡ number_gating questions)
    × (d.compliance.passed ≤ d.compliance.questions)
    × (d.retrieval.passed ≤ d.retrieval.questions)
count_episodes_total_example =
    count_episodes_total to_str (λ s. refl) (run_by "gpt") questions passes_validation

without_trap : keep is_no_trap questions ≡ keep is_no_trap (first_question ∷ second_question ∷ [])
unfolding dexpi_datalog.Gate.Layers.value_at Json.get
without_trap = refl

trap_never_gates_example :
    (count_episodes to_str questions zero_counts
      ≡ count_episodes to_str (first_question ∷ second_question ∷ []) zero_counts)
    × (identities to_str "report.json" [] questions
        ≡ identities to_str "report.json" [] (first_question ∷ second_question ∷ []))
trap_never_gates_example =
    trap_never_gates to_str questions (first_question ∷ second_question ∷ []) without_trap
      zero_counts "report.json" []

abbrev answer : StructuredAnswer
answer = record {
  verdict = "violation_found";
  witness_ids = "n2" ∷ "n1" ∷ "n2" ∷ [];
  posture = "source_grounded";
  transcript = [];
  usage = end;
  answer_text = "";
  support = end;
}

abbrev truth : GroundTruth
truth = record { verdict = "violation_found"; witness_ids = "n1" ∷ "n2" ∷ [] }

abbrev node : String → Json
node id = obj (field "node_id" (str id) end)

abbrev graph_facts : Fields
graph_facts =
    field "facts" (obj (field "nodes" (arr (cons (node "n1") (cons (node "n2") nil))) end)) end

passes : (grade to_str answer truth graph_facts none none).passed ≡ true
unfolding grade dexpi_datalog.Gate.Layers.value_at Json.get
passes = refl

grade_passes_iff_example :
    ((grade to_str answer truth graph_facts none none).passed ≡ true)
    ↔ IsCreditable (known_node_ids to_str graph_facts) answer truth none none
grade_passes_iff_example = grade_passes_iff to_str answer truth graph_facts none none

abbrev refusing : StructuredAnswer
refusing = record answer {
  verdict = "unanswerable";
  witness_ids = [];
  posture = "out_of_scope";
  answer_text = "The drawing does not say.";
}

abbrev rubric : TrapRubric
rubric = record {
  expected_posture = "out_of_scope";
  refusal_basis = "no data";
  redirect_target = "the vendor";
  human_spot_check = false;
}

abbrev judgment : TrapJudgment
judgment = record { grounded_refusal = true; graceful_redirect = true; rationale = "fine" }

abbrev nothing_expected : GroundTruth
nothing_expected = record { verdict = "unanswerable"; witness_ids = [] }

trap_passes :
    (grade to_str refusing nothing_expected graph_facts (some rubric) (some judgment)).passed ≡ true
unfolding grade
trap_passes = refl

trap_without_judge :
    (grade to_str refusing nothing_expected graph_facts (some rubric) none).passed ≡ false
unfolding grade
trap_without_judge = refl

grade-IsMeasured_example : IsMeasured answer truth (grade to_str answer truth graph_facts none none)
grade-IsMeasured_example = grade-IsMeasured to_str answer truth graph_facts none none

abbrev praise : Fields
praise =
    field "grounded_refusal" (bool true)
      (field "graceful_redirect" (bool true) (field "rationale" (str "Names the gap.") end))

-- JSON for the one object, by its name
abbrev loads : String → Option Json
loads s = if s == "praise" then some (obj praise) else none

abbrev dumps : Json → String
dumps v = "praise"

parse_judgment_praises_iff_example :
    IsPraised (some (parse_judgment loads dumps (str "praise"))) ↔ (
      (s : String) × (payload : Fields) × (str "praise" ≡ str s)
      × (loads s ≡ some (obj payload))
      × IsPraising payload)
parse_judgment_praises_iff_example = parse_judgment_praises_iff loads dumps (str "praise")

praises : (parse_judgment loads dumps (str "praise")).grounded_refusal ≡ true
unfolding parse_judgment Json.get
praises = refl

abbrev unlucky : Fields
unlucky = field "grounded_refusal" (bool false) (
    field "graceful_redirect" (bool false)
      (field "rationale" (str "Malformed or refused by the candidate.") end))

-- A well-formed scripted judgment whose rationale begins like the one for malformed output.
refuses_well_formed :
    load_scripted_trap_judgments
      (λ s. some (obj unlucky))
      dumps
      (obj (field "q1" (obj unlucky) end))
    ≡ invalid_judgment "q1"
unfolding load_scripted_trap_judgments Json.get
refuses_well_formed = refl
