-- ===== src/Benchmark/Grader.antt =====
-- benchmark/grader.py: `grade`. Its floats are the exact ratios that they stand for.
pub mod Passed
pub mod Metrics
use dexpi_datalog.Prelude.{
  ℕ, ◌+◌, ◌*◌, String, Bool, true, false, not, ◌&&◌, ◌||◌, Option, none, some, List, [], ◌∷◌, ◌==◌,
  string_eq, contains, length, if◌then◌else◌,
}
use dexpi_datalog.Prelude.Text.{is_blank}
use dexpi_datalog.Prelude.Sort.{sort, text_le}
use dexpi_datalog.Prelude.Sets.{distinct, meet, minus}
use dexpi_datalog.Json
use dexpi_datalog.Json.{Json, arr, obj, Items, nil, cons, Fields}
use dexpi_datalog.Gate.Layers.{value_at}
use dexpi_datalog.Benchmark.Contract.{
  source_conclusion_verdicts, posture_source_grounded, TrapRubric, TrapJudgment, StructuredAnswer,
  GroundTruth,
}

-- part / whole
pub record Ratio : Type 0 where
  pub part : ℕ
  pub whole : ℕ

pub record Grade : Type 0 where
  pub passed : Bool
  pub verdict_match : Bool
  pub witness_match : Bool
  pub posture_consistent : Bool
  pub witness_precision : Ratio
  pub witness_recall : Ratio
  pub witness_f1 : Ratio
  pub grounded_answer_credit : Ratio
  pub missing_witness_ids : List String
  pub extra_witness_ids : List String
  pub unknown_witness_ids : List String
  pub trap_rubric_passed : Option Bool
  pub grounded_refusal : Option Bool
  pub graceful_redirect : Option Bool
  pub judge_rationale : Option String

module _ (to_str : Json → String) where
  abbrev with_id : Option Json → List String → List String
  with_id none ids = ids
  with_id (some v) ids = to_str v ∷ ids

  node_ids : Items → List String
  node_ids nil = []
  node_ids (cons (obj node) xs) = with_id (Json.get "node_id" node) (node_ids xs)
  node_ids (cons _ xs) = node_ids xs

  abbrev ids_of_nodes : Json → List String
  unfolding node_ids
  ids_of_nodes (arr xs) = node_ids xs
  ids_of_nodes _ = []

  abbrev ids_of_facts : Json → List String
  unfolding node_ids
  ids_of_facts (obj facts) = ids_of_nodes (value_at "nodes" facts)
  ids_of_facts _ = []

  -- The members of `known_node_ids`.
  unfoldable pub known_node_ids : Fields → List String
  unfolding node_ids
  known_node_ids graph_facts = ids_of_facts (value_at "facts" graph_facts)

abbrev pub is_empty : List String → Bool
is_empty [] = true
is_empty (x ∷ xs) = false

abbrev pub ratio : ℕ → List String → Ratio
ratio n [] = record { part = 0; whole = 1 }
ratio n (x ∷ xs) = record { part = n; whole = length (x ∷ xs) }

abbrev pub one : Ratio
one = record { part = 1; whole = 1 }

abbrev pub both_empty : List String → List String → Bool
both_empty xs ys = is_empty xs && is_empty ys

-- The metrics of two sets, the answer's and the expected.
abbrev pub precision_of : List String → List String → Ratio
precision_of xs ys = if both_empty xs ys then one else ratio (length (meet xs ys)) xs

abbrev pub recall_of : List String → List String → Ratio
recall_of xs ys = if both_empty xs ys then one else ratio (length (meet xs ys)) ys

abbrev pub f1_of : List String → List String → Ratio
f1_of xs ys =
    if both_empty xs ys
    then one
    else record { part = 2 * length (meet xs ys); whole = length xs + length ys }

-- float(b) * r
abbrev pub credit_of : Bool → Ratio → Ratio
credit_of true r = r
credit_of false r = record { part = 0; whole = r.whole }

-- What the rubric branch of `grade` sets.
pub record Qualified : Type 0 where
  pub consistent : Bool
  pub rubric_passed : Option Bool
  pub refusal : Option Bool
  pub redirect : Option Bool
  pub rationale : Option String

abbrev pub judged_refusal : Option TrapJudgment → Bool
judged_refusal none = false
judged_refusal (some j) = j.grounded_refusal

abbrev pub judged_redirect : Option TrapJudgment → Bool
judged_redirect none = false
judged_redirect (some j) = j.graceful_redirect

abbrev rationale_of : Option TrapJudgment → Option String
rationale_of none = none
rationale_of (some j) = some j.rationale

abbrev pub posture_rule : StructuredAnswer → Bool
posture_rule answer =
    let grounded = answer.posture == posture_source_grounded in
    if contains source_conclusion_verdicts answer.verdict then grounded else not grounded

abbrev pub trap_rule : StructuredAnswer → TrapRubric → Option TrapJudgment → Bool
trap_rule answer rubric judgment =
    not (is_blank answer.answer_text)
    && is_empty answer.witness_ids
    && answer.posture == rubric.expected_posture
    && judged_refusal judgment
    && judged_redirect judgment

unfoldable pub qualify : StructuredAnswer → Option TrapRubric → Option TrapJudgment → Qualified
unfolding is_blank
qualify answer (some rubric) judgment = record {
  consistent = answer.posture == rubric.expected_posture;
  rubric_passed = some (trap_rule answer rubric judgment);
  refusal = some (judged_refusal judgment);
  redirect = some (judged_redirect judgment);
  rationale = rationale_of judgment;
}
qualify answer none judgment = record {
  consistent = posture_rule answer;
  rubric_passed = none;
  refusal = none;
  redirect = none;
  rationale = none;
}

-- b is not False
abbrev pub is_not_false : Option Bool → Bool
is_not_false none = true
is_not_false (some b) = b

-- `grade`, from the known node ids
unfoldable pub grade_known :
    List String → StructuredAnswer → GroundTruth → Option TrapRubric → Option TrapJudgment → Grade
unfolding distinct qualify sort
grade_known nodes answer truth rubric judgment =
    let given = distinct answer.witness_ids in
    let expected = distinct truth.witness_ids in
    let unknown = minus given nodes in
    let missing = minus expected given in
    let extra = minus (meet given nodes) expected in
    let same_verdict = answer.verdict == truth.verdict in
    let same_witnesses = is_empty unknown && is_empty missing && is_empty extra in
    let q = qualify answer rubric judgment in
    record {
      passed = same_verdict && same_witnesses && q.consistent && is_not_false q.rubric_passed;
      verdict_match = same_verdict;
      witness_match = same_witnesses;
      posture_consistent = q.consistent;
      witness_precision = precision_of given expected;
      witness_recall = recall_of given expected;
      witness_f1 = f1_of given expected;
      grounded_answer_credit = credit_of same_verdict (f1_of given expected);
      missing_witness_ids = sort text_le missing;
      extra_witness_ids = sort text_le extra;
      unknown_witness_ids = sort text_le unknown;
      trap_rubric_passed = q.rubric_passed;
      grounded_refusal = q.refusal;
      graceful_redirect = q.redirect;
      judge_rationale = q.rationale;
    }

-- `grade`
unfoldable pub grade :
    (Json → String)
    → StructuredAnswer
    → GroundTruth
    → Fields
    → Option TrapRubric
    → Option TrapJudgment
    → Grade
unfolding grade_known known_node_ids
grade to_str answer truth graph_facts rubric judgment =
    grade_known (known_node_ids to_str graph_facts) answer truth rubric judgment
