-- ===== src/Benchmark/Results/Decision.antt =====
-- `_decision` of benchmark/results.py: the locked decision rule.
pub mod Strongest
pub mod Collected
pub mod Rule
pub mod Ignored
pub mod Verdict
use dexpi_datalog.Prelude.{
  ℕ, String, Bool, true, false, not, ◌&&◌, ◌||◌, Option, none, some, List, [], ◌∷◌, ◌++◌, ◌==◌,
  string_eq, contains, map, if◌then◌else◌,
}
use dexpi_datalog.Prelude.Dict
use dexpi_datalog.Prelude.Dict.{Dict}
use dexpi_datalog.Prelude.Sort.{sort, text_le}
use dexpi_datalog.Json.{Json}
use dexpi_datalog.Benchmark.Results.{
  no_arm_a_run, no_shared_configuration, index_error, Checked, valid, refused, bind, BenchmarkRun,
  compliance_universal, retrieval_local,
}
use dexpi_datalog.Benchmark.Results.Fractions.{at_most}
use dexpi_datalog.Benchmark.Results.Counts.{
  Tally, Counts, gating_counts, Score, score_of, Evaluation, evaluation_of,
}
use dexpi_datalog.Benchmark.Results.Identity.{require_identical_gating_questions}

abbrev pub sonnet : String
sonnet = "sonnet"

abbrev pub gpt : String
gpt = "gpt"

abbrev pub verdict_tier_models : List String
verdict_tier_models = sonnet ∷ gpt ∷ []

abbrev pub arm_family_a : String
arm_family_a = "arm_a"

abbrev pub ByModel : Type 0
ByModel = Dict String BenchmarkRun

abbrev pub DecisionRuns : Type 0
DecisionRuns = Dict String ByModel

abbrev pub is_decision_run : BenchmarkRun → Bool
is_decision_run run = run.arm_family == arm_family_a && contains verdict_tier_models run.model

abbrev pub found_or_empty : Option ByModel → ByModel
found_or_empty none = []
found_or_empty (some d) = d

-- decision_runs.setdefault(run.configuration, {})[run.model] = run
unfoldable pub add_run : BenchmarkRun → DecisionRuns → DecisionRuns
add_run run d =
    Dict.put run.configuration
      (Dict.put run.model run (found_or_empty (Dict.get run.configuration d))) d

unfoldable pub collect : List BenchmarkRun → DecisionRuns → DecisionRuns
unfolding add_run
collect [] d = d
collect (run ∷ runs) d = collect runs (if is_decision_run run then add_run run d else d)

abbrev is_some : {A : Type 0} → Option A → Bool
is_some (some a) = true
is_some none = false

-- any(model in by_model for by_model in decision_runs.values())
unfoldable pub has_model : String → DecisionRuns → Bool
has_model model [] = false
has_model model ((c, by_model) ∷ d) = is_some (Dict.get model by_model) || has_model model d

-- A configuration that every model of the verdict tier ran, with the runs.
pub record Shared : Type 0 where
  pub configuration : String
  pub sonnet_run : BenchmarkRun
  pub gpt_run : BenchmarkRun

abbrev pub shared_of : String → Option BenchmarkRun → Option BenchmarkRun → List Shared
shared_of c (some s) (some g) = record { configuration = c; sonnet_run = s; gpt_run = g } ∷ []
shared_of c _ _ = []

unfoldable pub all_shared : DecisionRuns → List Shared
all_shared [] = []
all_shared ((c, by_model) ∷ d) =
    shared_of c (Dict.get sonnet by_model) (Dict.get gpt by_model) ++ all_shared d

abbrev pub configuration_le : Shared → Shared → Bool
configuration_le a b = text_le a.configuration b.configuration

unfoldable pub shared_configurations : DecisionRuns → List Shared
unfolding all_shared
shared_configurations d = sort configuration_le (all_shared d)

-- the runs that have to grade the same questions
abbrev pub runs_of : List Shared → List BenchmarkRun
runs_of [] = []
runs_of (c ∷ cs) = c.sonnet_run ∷ c.gpt_run ∷ runs_of cs

pub record Scored : Type 0 where
  pub shared : Shared
  pub sonnet_counts : Counts
  pub gpt_counts : Counts

abbrev pub score : Scored → Score
score s = score_of s.sonnet_counts s.gpt_counts

-- (a.score, a.configuration) <= (b.score, b.configuration)
unfoldable pub scored_le : Scored → Scored → Bool
unfolding at_most score_of
scored_le a b =
    let x = score a in
    let y = score b in
    let names = text_le a.shared.configuration b.shared.configuration in
    let totals =
      if at_most x.total_margin y.total_margin
      then (if at_most y.total_margin x.total_margin then names else true)
      else false in
    if at_most x.least_margin y.least_margin
    then (if at_most y.least_margin x.least_margin then totals else true)
    else false

unfoldable pub last : List Scored → Option Scored
last [] = none
last (x ∷ []) = some x
last (x ∷ y ∷ ys) = last (y ∷ ys)

unfoldable pub strongest : List Scored → Option Scored
unfolding last scored_le
strongest scored = last (sort scored_le scored)

-- A gate that a model missed: its counts stand in the verdict line.
pub record Failure : Type 0 where
  pub model : String
  pub category : String
  pub tally : Tally

abbrev failure_unless : Bool → String → String → Tally → List Failure
failure_unless true model category t = []
failure_unless false model category t =
    record { model = model; category = category; tally = t } ∷ []

unfoldable pub failures_of : String → Evaluation → List Failure
failures_of model e =
    if e.passed
    then []
    else failure_unless e.compliance_met model compliance_universal e.counts.compliance
      ++ failure_unless e.retrieval_met model retrieval_local e.counts.retrieval

abbrev pub decision_build : String
decision_build = "build_engine_mediated_system"

abbrev pub decision_stand_down : String
decision_stand_down = "stand_down"

abbrev pub verdict_of : List Failure → String
verdict_of [] = decision_stand_down
verdict_of (f ∷ fs) = decision_build

pub record Decision : Type 0 where
  pub strongest_configuration : Shared
  pub considered : List String
  pub sonnet_evaluation : Evaluation
  pub gpt_evaluation : Evaluation
  pub failures : List Failure
  pub verdict : String

unfoldable pub decision_of : List Shared → Scored → Decision
unfolding evaluation_of failures_of
decision_of considered s =
    let a = evaluation_of s.sonnet_counts in
    let b = evaluation_of s.gpt_counts in
    let fs = failures_of sonnet a ++ failures_of gpt b in
    record {
      strongest_configuration = s.shared;
      considered = map (λ (c : Shared). c.configuration) considered;
      sonnet_evaluation = a;
      gpt_evaluation = b;
      failures = fs;
      verdict = verdict_of fs;
    }

abbrev pub decided : List Shared → Option Scored → Checked Decision
decided considered none = refused index_error
decided considered (some s) = valid (decision_of considered s)

module _ (to_str : Json → String) where
  -- (_configuration_score(decision_runs[configuration]), configuration)
  unfoldable pub score_configuration : Shared → Checked Scored
  unfolding gating_counts
  score_configuration c = bind (gating_counts to_str c.sonnet_run) λ s.
      bind (gating_counts to_str c.gpt_run)
        λ g. valid (record { shared = c; sonnet_counts = s; gpt_counts = g })

  unfoldable pub score_all : List Shared → Checked (List Scored)
  unfolding score_configuration
  score_all [] = valid []
  score_all (c ∷ cs) =
      let rest = score_all cs in bind (score_configuration c) λ s. bind rest λ ss. valid (s ∷ ss)

  unfoldable pub decide_shared : List Shared → Checked Decision
  unfolding score_all strongest decision_of require_identical_gating_questions
  decide_shared [] = refused no_shared_configuration
  decide_shared (c ∷ cs) =
      let all = c ∷ cs in
      bind (require_identical_gating_questions to_str (runs_of all))
        λ _. bind (score_all all) λ scored. decided all (strongest scored)

  unfoldable pub decide : DecisionRuns → Checked Decision
  unfolding decide_shared shared_configurations has_model
  decide d =
      if not (has_model sonnet d)
      then refused (no_arm_a_run sonnet)
      else if not (has_model gpt d)
      then refused (no_arm_a_run gpt)
      else decide_shared (shared_configurations d)

  -- `_decision`
  unfoldable pub decision : List BenchmarkRun → Checked Decision
  unfolding decide collect
  decision runs = decide (collect runs [])
