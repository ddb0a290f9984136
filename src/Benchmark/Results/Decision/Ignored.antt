-- ===== src/Benchmark/Results/Decision/Ignored.antt =====
-- What cannot move the decision of benchmark/results.py.
use dexpi_datalog.Prelude.{
  String, ◌≡◌, refl, sym, ap, ◌∙◌, inl, inr, Bool, true, not, ◌&&◌, ◌||◌, ◌==◌, arith, List, [],
  ◌∷◌, keep, string_eq, Bool-cases,
}
use dexpi_datalog.Json
use dexpi_datalog.Gate.Layers.{value_at}
use dexpi_datalog.Json.{Json, null, bool, int, str, arr, obj, Fields}
use dexpi_datalog.Benchmark.Results.{bind, BenchmarkRun, is_gating, is_text}
use dexpi_datalog.Benchmark.Results.Counts.{Counts, count_episode, count_episodes}
use dexpi_datalog.Benchmark.Results.Identity.{identity_of, identify, identities}
use dexpi_datalog.Benchmark.Results.Decision.{
  DecisionRuns, is_decision_run, add_run, collect, decision, decide,
}

collect-keep :
    (runs : List BenchmarkRun) (d : DecisionRuns)
    → collect (keep is_decision_run runs) d ≡ collect runs d
unfolding collect
collect-keep [] d = refl
collect-keep (run ∷ runs) d = elim (Bool-cases (is_decision_run run)) [
  | inl y ↦ rw (y, collect) (rw y (collect-keep runs (add_run run d)))
  | inr n ↦ rw n (collect-keep runs d)
]

-- The run is by Arm A, and by one of the two models of the verdict tier.
abbrev pub is_decisive : BenchmarkRun → Bool
is_decisive run = run.arm_family == "arm_a" && ("sonnet" == run.model || "gpt" == run.model)

is_decisive-is_decision_run : (run : BenchmarkRun) → is_decisive run ≡ is_decision_run run
is_decisive-is_decision_run run = ground arith

keep_decisive : (runs : List BenchmarkRun) → keep is_decisive runs ≡ keep is_decision_run runs
keep_decisive [] = refl
keep_decisive (run ∷ runs) = rw (is_decisive-is_decision_run run, keep_decisive runs)

-- Runs of other arms than A, and of models other than sonnet and gpt, do not move the decision: two
-- lists of runs that agree on all others have the same one, or the same error.
pub decision_other_runs :
    (to_str : Json → String) (xs ys : List BenchmarkRun)
    → keep is_decisive xs ≡ keep is_decisive ys
    → decision to_str xs ≡ decision to_str ys
unfolding decision
decision_other_runs to_str xs ys same =
    let kept = sym (keep_decisive xs) ∙ same ∙ keep_decisive ys in
    ap (decide to_str) (sym (collect-keep xs []) ∙ ap (λ l. collect l []) kept ∙ collect-keep ys [])

-- The value is not an episode of the trap slice.
abbrev pub is_no_trap : Json → Bool
unfolding value_at Json.get
is_no_trap (obj e) = not (is_text "trap" (value_at "slice" e))
is_no_trap _ = true

-- The episode is one that gates, or no episode at all.
abbrev gates : Json → Bool
gates (obj e) = is_gating e
gates _ = true

gates_no_trap : (x : Json) → gates x ≡ is_no_trap x
unfolding is_gating value_at Json.get
gates_no_trap null = refl
gates_no_trap (bool b) = refl
gates_no_trap (int z) = refl
gates_no_trap (str s) = refl
gates_no_trap (arr xs) = refl
gates_no_trap (obj e) = refl

keep-gates : (xs : List Json) → keep gates xs ≡ keep is_no_trap xs
keep-gates [] = refl
keep-gates (x ∷ xs) = rw (gates_no_trap x, keep-gates xs)

keep_gating :
    (e : Fields) (es : List Json)
    → is_gating e ≡ true
    → keep gates (obj e ∷ es) ≡ obj e ∷ keep gates es
keep_gating e es y = rw y

module _ (to_str : Json → String) where
  count-keep :
      (es : List Json) (c : Counts)
      → count_episodes to_str (keep gates es) c ≡ count_episodes to_str es c
  unfolding count_episodes count_episode
  count-keep [] c = refl
  count-keep (null ∷ es) c = refl
  count-keep (bool b ∷ es) c = refl
  count-keep (int z ∷ es) c = refl
  count-keep (str s ∷ es) c = refl
  count-keep (arr xs ∷ es) c = refl
  count-keep (obj e ∷ es) c = elim (Bool-cases (is_gating e)) [
    | inr n ↦ rw n (count-keep es c)
    | inl y ↦
        ap (λ l. count_episodes to_str l c) (keep_gating e es y)
        ∙ (λ i. bind (count_episode to_str e c) λ d. count-keep es d i)
  ]

  identities-keep :
      (path : String) (seen : List String) (es : List Json)
      → identities to_str path seen (keep gates es) ≡ identities to_str path seen es
  unfolding identities
  identities-keep path seen [] = refl
  identities-keep path seen (null ∷ es) = refl
  identities-keep path seen (bool b ∷ es) = refl
  identities-keep path seen (int z ∷ es) = refl
  identities-keep path seen (str s ∷ es) = refl
  identities-keep path seen (arr xs ∷ es) = refl
  identities-keep path seen (obj e ∷ es) = elim (Bool-cases (is_gating e)) [
    | inr n ↦ rw (n, identify) (identities-keep path seen es)
    | inl y ↦ ap (identities to_str path seen) (keep_gating e es y) ∙ λ i.
        identify to_str path seen e
          (identities-keep path ((identity_of to_str e).question_id ∷ seen) es i)
          (identities-keep path seen es i)
  ]

  -- Episodes of the trap slice do not move what the decision is computed from: two lists that
  -- agree on all other episodes are counted alike and have the same identities, errors included.
  pub trap_never_gates :
      (xs ys : List Json)
      → keep is_no_trap xs ≡ keep is_no_trap ys
      → (c : Counts) → (path : String) → (seen : List String)
      → (count_episodes to_str xs c ≡ count_episodes to_str ys c)
        × (identities to_str path seen xs ≡ identities to_str path seen ys)
  trap_never_gates xs ys same c path seen =
      let kept = keep-gates xs ∙ same ∙ sym (keep-gates ys) in
      (
        sym (count-keep xs c) ∙ ap (λ l. count_episodes to_str l c) kept ∙ count-keep ys c,
        sym (identities-keep path seen xs)
            ∙ ap (identities to_str path seen) kept
            ∙ identities-keep path seen ys,
      )
