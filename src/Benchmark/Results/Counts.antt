-- ===== src/Benchmark/Results/Counts.antt =====
-- `_gating_counts`, `_configuration_score` and `_model_evaluation` of benchmark/results.py.
pub mod Total
use dexpi_datalog.Prelude.{
  ℕ, ◌+◌, ◌*◌, ◌≤◌, String, Bool, true, false, ◌&&◌, List, [], ◌∷◌, ◌==◌, string_eq, nat_eq, leb,
  if◌then◌else◌,
}
use dexpi_datalog.Json.{Json, obj, Fields}
use dexpi_datalog.Gate.Layers.{value_at}
use dexpi_datalog.Benchmark.Results.{
  no_gating_episodes, attribute_error, key_error, Checked, valid, refused, bind, BenchmarkRun,
  compliance_universal, retrieval_local, episodes, is_gating, exact_verdict_with_witnesses,
}
use dexpi_datalog.Benchmark.Results.Fractions.{Fraction, sum, least}

-- [passed, total] of one category
pub record Tally : Type 0 where
  pub passed : ℕ
  pub questions : ℕ

-- the dict of the counts, whose keys are the two question categories
pub record Counts : Type 0 where
  pub compliance : Tally
  pub retrieval : Tally

abbrev pub zero_counts : Counts
zero_counts =
    let none_yet : Tally = record { passed = 0; questions = 0 } in
    record { compliance = none_yet; retrieval = none_yet }

abbrev pub bit : Bool → ℕ
bit true = 1
bit false = 0

abbrev pub counted : Bool → Tally → Tally
counted exact t = record { passed = t.passed + bit exact; questions = t.questions + 1 }

unfoldable pub count_in : String → Bool → Counts → Checked Counts
count_in category exact c =
    if category == compliance_universal
    then valid (record c { compliance = counted exact c.compliance })
    else if category == retrieval_local
    then valid (record c { retrieval = counted exact c.retrieval })
    else refused key_error

-- `episode` is counted only where it gates the decision
module _ (to_str : Json → String) where
  unfoldable pub count_episode : Fields → Counts → Checked Counts
  unfolding is_gating exact_verdict_with_witnesses count_in
  count_episode episode c =
      if is_gating episode
      then count_in (to_str (value_at "category" episode)) (exact_verdict_with_witnesses episode) c
      else valid c

  unfoldable pub count_episodes : List Json → Counts → Checked Counts
  unfolding count_episode
  count_episodes [] c = valid c
  count_episodes (obj episode ∷ es) c = bind (count_episode episode c) (count_episodes es)
  count_episodes (_ ∷ es) c = refused attribute_error

  unfoldable pub assessed : BenchmarkRun → Counts → Checked Counts
  assessed run c =
      if c.compliance.questions == 0
      then refused (no_gating_episodes run.arm_id run.model compliance_universal)
      else if c.retrieval.questions == 0
      then refused (no_gating_episodes run.arm_id run.model retrieval_local)
      else valid c

  -- `_gating_counts`
  unfoldable pub gating_counts : BenchmarkRun → Checked Counts
  unfolding assessed episodes count_episodes
  gating_counts run = bind (bind (episodes run) λ es. count_episodes es zero_counts) (assessed run)

-- Permille, as the code writes the bars
abbrev pub compliance_bar : ℕ
compliance_bar = 980

abbrev pub retrieval_bar : ℕ
retrieval_bar = 950

-- Fraction(passed, total) - Fraction(bar, 1000)
abbrev pub margin : ℕ → Tally → Fraction
margin bar t = record {
  plus = t.passed * 1000;
  minus = bar * t.questions;
  over = t.questions * 1000;
}

abbrev pub compliance_margin : Counts → Fraction
compliance_margin c = margin compliance_bar c.compliance

abbrev pub retrieval_margin : Counts → Fraction
retrieval_margin c = margin retrieval_bar c.retrieval

pub record Score : Type 0 where
  pub least_margin : Fraction
  pub total_margin : Fraction

abbrev pub zero_fraction : Fraction
zero_fraction = record { plus = 0; minus = 0; over = 1 }

abbrev pub other_margins : Counts → Counts → List Fraction
other_margins sonnet gpt =
    retrieval_margin sonnet ∷ compliance_margin gpt ∷ retrieval_margin gpt ∷ []

-- `_configuration_score`, from the counts of the two models
unfoldable pub score_of : Counts → Counts → Score
unfolding least sum
score_of sonnet gpt =
    let first = compliance_margin sonnet in
    let others = other_margins sonnet gpt in
    record { least_margin = least first others; total_margin = sum zero_fraction (first ∷ others) }

abbrev pub met_bar : ℕ → Tally → Bool
met_bar bar t = leb (bar * t.questions) (t.passed * 1000)

pub record Evaluation : Type 0 where
  pub counts : Counts
  pub compliance_met : Bool
  pub retrieval_met : Bool
  pub passed : Bool

-- `_model_evaluation`, less the percentages
unfoldable pub evaluation_of : Counts → Evaluation
evaluation_of c =
    let compliance = met_bar compliance_bar c.compliance in
    let retrieval = met_bar retrieval_bar c.retrieval in
    record {
      counts = c;
      compliance_met = compliance;
      retrieval_met = retrieval;
      passed = compliance && retrieval;
    }
