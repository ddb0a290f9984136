-- ===== src/Benchmark/Results/Decision/Rule.antt =====
-- The locked rule of benchmark/results.py, read off the list of the runs.
use mathlib.Core.Path.{subst}
use dexpi_datalog.Prelude.{
  String, ◌≡◌, sym, ap, ◌∙◌, ◌↔◌, ◌⊎◌, inl, inr, true, none, some, List, [], ◌∷◌, string_eq, In,
  arith,
}
use dexpi_datalog.Prelude.Dict
use dexpi_datalog.Json.{Json}
use dexpi_datalog.Benchmark.Results.{Checked, valid, bind, BenchmarkRun}
use dexpi_datalog.Benchmark.Results.Validate.{validated_runs, validate_runs}
use dexpi_datalog.Benchmark.Results.Validate.Unique.{validate_runs_unique, validated_runs_same}
use dexpi_datalog.Benchmark.Results.Decision.{
  Decision, decision, Shared, all_shared, collect, is_decision_run, sonnet, gpt, arm_family_a,
  decision_stand_down,
}
use dexpi_datalog.Benchmark.Results.Decision.Collected.{
  lookup, IsCollected, collect_sound, collect_complete, collect-IsKeyed, all_shared_sound,
  all_shared_complete,
}
use dexpi_datalog.Benchmark.Results.Decision.Verdict.{Meets, decide_stands_down, bind_gives}

-- the decision of `generate_results_report`
unfoldable pub report_decision : (Json → String) → List BenchmarkRun → Checked Decision
unfolding decision validated_runs
report_decision to_str runs = bind (validated_runs runs) (decision to_str)

-- The two runs of one Arm-A configuration by the two models of the verdict tier.
pub record IsPair (runs : List BenchmarkRun) (s g : BenchmarkRun) : Type 0 where
  pub sonnet_listed : In s runs
  pub gpt_listed : In g runs
  pub sonnet_family : s.arm_family ≡ arm_family_a
  pub gpt_family : g.arm_family ≡ arm_family_a
  pub sonnet_model : s.model ≡ sonnet
  pub gpt_model : g.model ≡ gpt
  pub same_configuration : s.configuration ≡ g.configuration

decision_run_family : (r : BenchmarkRun) → is_decision_run r ≡ true → r.arm_family ≡ arm_family_a
decision_run_family r h = ground (arith, string_eq.equals_iff r.arm_family arm_family_a)

is_decision_run_of :
    (r : BenchmarkRun)
    → r.arm_family ≡ arm_family_a
    → (r.model ≡ sonnet) ⊎ (r.model ≡ gpt)
    → is_decision_run r ≡ true
is_decision_run_of r f (inl m) = rw (f, m)
is_decision_run_of r f (inr m) = rw (f, m)

-- From an empty dict, what is found was collected.
lookup-IsCollected :
    (runs : List BenchmarkRun) (c m : String) (r : BenchmarkRun)
    → lookup c m (collect runs []) ≡ some r
    → IsCollected runs c m r
unfolding Dict.get
lookup-IsCollected runs c m r h = elim (collect_sound runs [] c m r h) [ inl e ↦ cc | inr k ↦ k ]

shared-IsPair :
    (runs : List BenchmarkRun) (c : Shared)
    → In c (all_shared (collect runs []))
    → IsPair runs c.sonnet_run c.gpt_run
shared-IsPair runs c m =
    let both = all_shared_sound (collect runs []) c (collect-IsKeyed runs [] tt) m in
    let s = lookup-IsCollected runs c.configuration sonnet c.sonnet_run both.0 in
    let g = lookup-IsCollected runs c.configuration gpt c.gpt_run both.1 in
    record {
      sonnet_listed = s.listed;
      gpt_listed = g.listed;
      sonnet_family = decision_run_family c.sonnet_run s.considered;
      gpt_family = decision_run_family c.gpt_run g.considered;
      sonnet_model = s.modelled;
      gpt_model = g.modelled;
      same_configuration = s.configured ∙ sym g.configured;
    }

module _ (runs : List BenchmarkRun) (checked : validate_runs [] runs ≡ none) where
  -- A run that is considered is found at its own key.
  found_itself :
      (r : BenchmarkRun)
      → In r runs
      → is_decision_run r ≡ true
      → lookup r.configuration r.model (collect runs []) ≡ some r
  found_itself r m h =
      let (s, at) = collect_complete runs [] r m h in
      let k = lookup-IsCollected runs r.configuration r.model s at in
      let key : s.configuration ∷ s.model ∷ [] ≡ r.configuration ∷ r.model ∷ [] =
        rw (k.configured, k.modelled) in
      at ∙ ap some (validate_runs_unique [] runs checked s r k.listed m key)

  pair-shared :
      (s g : BenchmarkRun)
      → IsPair runs s g
      → In
          (record { configuration = s.configuration; sonnet_run = s; gpt_run = g })
          (all_shared (collect runs []))
  pair-shared s g p =
      let fs =
        found_itself s p.sonnet_listed
          (is_decision_run_of s p.sonnet_family (inl p.sonnet_model)) in
      let fg = found_itself g p.gpt_listed (is_decision_run_of g p.gpt_family (inr p.gpt_model)) in
      all_shared_complete (collect runs [])
        (record { configuration = s.configuration; sonnet_run = s; gpt_run = g })
        (
          subst (λ m. lookup s.configuration m (collect runs []) ≡ some s) p.sonnet_model fs,
          subst (λ m. lookup s.configuration m (collect runs []) ≡ some g) p.gpt_model
              (subst (λ c. lookup c g.model (collect runs []) ≡ some g) (sym p.same_configuration)
                fg),
        )

-- Some configuration was run by both models, and each meets both bars in it.
abbrev pub IsBarred : (Json → String) → List BenchmarkRun → Type 0
IsBarred to_str runs =
    (s : BenchmarkRun) × (g : BenchmarkRun) × IsPair runs s g × Meets to_str s × Meets to_str g

decision_stands_down :
    (to_str : Json → String) (runs : List BenchmarkRun) (d : Decision)
    → validate_runs [] runs ≡ none
    → decision to_str runs ≡ valid d
    → (d.verdict ≡ decision_stand_down) ↔ IsBarred to_str runs
unfolding decision
decision_stands_down to_str runs d checked h =
    let both = decide_stands_down to_str (collect runs []) d h in
    (
      λ v.
          let (c, m, met) = both.0 v in
          (c.sonnet_run, c.gpt_run, shared-IsPair runs c m, met.0, met.1),
      λ (s, g, p, ms, mg). both.1 (
        record { configuration = s.configuration; sonnet_run = s; gpt_run = g },
        pair-shared runs checked s g p,
        (ms, mg),
      ),
    )

-- Where the report decides, it says stand down exactly when some Arm-A configuration was run by
-- both models of the verdict tier, and in it the run of each meets both bars: of the questions of
-- either category, of which there are some, at least 98% in compliance and 95% in retrieval have
-- the exact verdict with witnesses.
pub report_stands_down_iff :
    (to_str : Json → String) (runs : List BenchmarkRun) (d : Decision)
    → report_decision to_str runs ≡ valid d
    → (d.verdict ≡ decision_stand_down) ↔ IsBarred to_str runs
unfolding report_decision
report_stands_down_iff to_str runs d h =
    let (rs, e, h1) = bind_gives (validated_runs runs) _ d h in
    let (same, checked) = validated_runs_same runs rs e in
    subst (λ x. (d.verdict ≡ decision_stand_down) ↔ IsBarred to_str x) (sym same)
      (decision_stands_down to_str rs d checked h1)
