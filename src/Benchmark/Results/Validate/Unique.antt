-- ===== src/Benchmark/Results/Validate/Unique.antt =====
-- What the validation of benchmark/results.py gives the decision: runs with distinct keys.
use dexpi_datalog.Prelude.{
  String, ◌≡◌, refl, sym, ap, ◌∙◌, inl, inr, Bool, true, false, Option, none, some, List, [], ◌∷◌,
  string_eq, list_eq, list_beq, ==_refl, contains, In, Bool-cases, Option-cases,
}
use mathlib.Core.Path.{subst}
use dexpi_datalog.Json.{Json}
use dexpi_datalog.Benchmark.Results.{
  ResultsReportError, Checked, valid, refused, BenchmarkRun, arm_families, episodes,
}
use dexpi_datalog.Benchmark.Results.Validate.{
  first_of, validate_episodes, validate_all, validate_runs, validated_runs,
}

-- The report of the run is well formed.
pub record IsValidRun (run : BenchmarkRun) : Type 0 where
  pub graded : List Json
  pub found : episodes run ≡ valid graded
  pub sound : validate_episodes run graded ≡ none

abbrev run_key : BenchmarkRun → List String
run_key run = run.configuration ∷ run.model ∷ []

no_first_error : (a b : Option ResultsReportError) → first_of a b ≡ none → (a ≡ none) × (b ≡ none)
no_first_error none b h = (refl, h)
no_first_error (some e) b h = cc

no_error : {X : Type 0} {e : ResultsReportError} → some e ≡ none → X
no_error h = cc

-- What the loop lets through for its first run.
pub record IsPassed (seen : List (List String)) (run : BenchmarkRun) (runs : List BenchmarkRun)
    : Type 0 where
  pub fresh : contains seen (run_key run) ≡ false
  pub checked : validate_all run (episodes run) ≡ none
  pub later : validate_runs (run_key run ∷ seen) runs ≡ none

validate_runs-IsPassed :
    (seen : List (List String)) (run : BenchmarkRun) (runs : List BenchmarkRun)
    → validate_runs seen (run ∷ runs) ≡ none
    → IsPassed seen run runs
unfolding validate_runs
validate_runs-IsPassed seen run runs h = elim (Bool-cases (contains arm_families run.arm_family)) [
  | inr n ↦ no_error (rw n at h)
  | inl y ↦ elim (Bool-cases (contains seen (run_key run))) [
    | inl z ↦ no_error (rw (y, z) at h)
    | inr fresh ↦
        let both = no_first_error _ _ (rw (y, fresh) at h) in
        record { fresh = fresh; checked = both.0; later = both.1 }
  ]
]

absurd_bool : {X : Type 0} → ◌≡◌ {A = Bool} true false → X
absurd_bool h = cc

contains_later :
    (k j : List String) (seen : List (List String))
    → contains (k ∷ seen) j ≡ false
    → contains seen j ≡ false
contains_later k j seen h = elim (Bool-cases (list_beq k j)) [
  | inl y ↦ absurd_bool (rw y at h)
  | inr n ↦ rw n at h
]

-- A run that comes later has a key that was not seen.
unseen :
    (seen : List (List String)) (runs : List BenchmarkRun)
    → validate_runs seen runs ≡ none
    → (r : BenchmarkRun) → In r runs
    → contains seen (run_key r) ≡ false
unseen seen [] h r m = absurd m
unseen seen (run ∷ runs) h r (inl at) =
    subst (λ x. contains seen (run_key x) ≡ false) (sym at)
      (validate_runs-IsPassed seen run runs h).fresh
unseen seen (run ∷ runs) h r (inr m) =
    let p = validate_runs-IsPassed seen run runs h in
    contains_later (run_key run) (run_key r) seen (unseen (run_key run ∷ seen) runs p.later r m)

key_differs :
    {X : Type 0} (seen : List (List String)) (a b : BenchmarkRun)
    → run_key a ≡ run_key b
    → contains (run_key a ∷ seen) (run_key b) ≡ false
    → X
key_differs seen a b e h =
    let there : contains (run_key b ∷ seen) (run_key b) ≡ true = rw (==_refl (run_key b)) in
    absurd_bool (sym there ∙ subst (λ k. contains (k ∷ seen) (run_key b) ≡ false) e h)

-- No two runs have the same configuration and model.
pub validate_runs_unique :
    (seen : List (List String)) (runs : List BenchmarkRun)
    → validate_runs seen runs ≡ none
    → (a b : BenchmarkRun) → In a runs
    → In b runs
    → run_key a ≡ run_key b
    → a ≡ b
validate_runs_unique seen [] h a b m n e = absurd m
validate_runs_unique seen (run ∷ runs) h a b (inl x) (inl y) e = x ∙ sym y
validate_runs_unique seen (run ∷ runs) h a b (inl x) (inr n) e =
    let p = validate_runs-IsPassed seen run runs h in
    key_differs seen run b (ap run_key (sym x) ∙ e) (unseen _ runs p.later b n)
validate_runs_unique seen (run ∷ runs) h a b (inr m) (inl y) e =
    let p = validate_runs-IsPassed seen run runs h in
    key_differs seen run a (ap run_key (sym y) ∙ sym e) (unseen _ runs p.later a m)
validate_runs_unique seen (run ∷ runs) h a b (inr m) (inr n) e =
    let p = validate_runs-IsPassed seen run runs h in validate_runs_unique _ runs p.later a b m n e

validate_all-IsValidRun :
    (run : BenchmarkRun) (c : Checked (List Json))
    → episodes run ≡ c
    → validate_all run c ≡ none
    → IsValidRun run
validate_all-IsValidRun run (valid es) e h = record { graded = es; found = e; sound = h }
validate_all-IsValidRun run (refused x) e h = no_error h

pub validate_runs-IsValidRun :
    (seen : List (List String)) (runs : List BenchmarkRun)
    → validate_runs seen runs ≡ none
    → (r : BenchmarkRun) → In r runs
    → IsValidRun r
validate_runs-IsValidRun seen [] h r m = absurd m
validate_runs-IsValidRun seen (run ∷ runs) h r (inl at) =
    let p = validate_runs-IsPassed seen run runs h in
    subst IsValidRun (sym at) (validate_all-IsValidRun run (episodes run) refl p.checked)
validate_runs-IsValidRun seen (run ∷ runs) h r (inr m) =
    let p = validate_runs-IsPassed seen run runs h in validate_runs-IsValidRun _ runs p.later r m

valid_injective : {a b : List BenchmarkRun} → valid a ≡ valid b → a ≡ b
valid_injective h = cc

not_valid :
    {X : Type 0} {e : ResultsReportError} {a : List BenchmarkRun}
    → ◌≡◌ {A = Checked (List BenchmarkRun)} (refused e) (valid a)
    → X
not_valid h = cc

-- What the validation returns are the runs that it was given, which the loop let through.
pub validated_runs_same :
    (runs rs : List BenchmarkRun)
    → validated_runs runs ≡ valid rs
    → (runs ≡ rs) × (validate_runs [] rs ≡ none)
unfolding validated_runs
validated_runs_same [] rs h = cc
validated_runs_same (run ∷ runs) rs h = elim (Option-cases (validate_runs [] (run ∷ runs))) [
  | inl n ↦
      let e : run ∷ runs ≡ rs = valid_injective (rw (n, validated_runs) at h) in
      (e, subst (λ x. validate_runs [] x ≡ none) e n)
  | inr (x, n) ↦ not_valid (rw (n, validated_runs) at h)
]
