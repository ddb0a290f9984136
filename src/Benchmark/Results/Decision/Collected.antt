-- ===== src/Benchmark/Results/Decision/Collected.antt =====
-- The runs that `_decision` of benchmark/results.py collects, looked up by configuration and model.
use mathlib.Core.Path.{subst}
use dexpi_datalog.Prelude.{
  String, ◌≡◌, refl, sym, ap, ◌∙◌, ◌⊎◌, inl, inr, Bool, true, ◌&&◌, Option, none, some, List, [],
  ◌∷◌, ◌==◌, string_eq, ==_refl, In, In-append_cases, In-append_left, In-append_right, Bool-cases,
  Option-cases, arith, if◌then◌else◌,
}
use dexpi_datalog.Prelude.Dict
use dexpi_datalog.Prelude.Dict.{Dict, get-put, IsKeyed, In-get, put-IsKeyed, get-In}
use dexpi_datalog.Benchmark.Results.{BenchmarkRun}
use dexpi_datalog.Benchmark.Results.Decision.{
  ByModel, DecisionRuns, is_decision_run, found_or_empty, add_run, collect, Shared, shared_of,
  all_shared, sonnet, gpt,
}

-- decision_runs[configuration][model]
abbrev pub lookup : String → String → DecisionRuns → Option BenchmarkRun
lookup c m d = Dict.get m (found_or_empty (Dict.get c d))

abbrev is_at : String → String → BenchmarkRun → Bool
is_at c m run = run.configuration == c && run.model == m

lookup-add_run :
    (c m : String) (run : BenchmarkRun) (d : DecisionRuns)
    → lookup c m (add_run run d) ≡ (if is_at c m run then some run else lookup c m d)
unfolding add_run
lookup-add_run c m run d =
    let old = found_or_empty (Dict.get run.configuration d) in
    let new = Dict.put run.model run old in
    let outer = get-put run.configuration c new d in
    let inner = get-put run.model m run old in
    elim (Bool-cases (run.configuration == c)) [
      | inr n ↦ rw (outer, n)
      | inl y ↦
          let at : run.configuration ≡ c = (string_eq.equals_iff run.configuration c).0 y in
          rw (outer, y, inner, at)
    ]

is_at_both :
    (c m : String) (run : BenchmarkRun)
    → is_at c m run ≡ true
    → (run.configuration ≡ c) × (run.model ≡ m)
is_at_both c m run h =
    ground (arith, string_eq.equals_iff run.configuration c, string_eq.equals_iff run.model m)

is_at_own : (run : BenchmarkRun) → is_at run.configuration run.model run ≡ true
is_at_own run = rw (==_refl run.configuration, ==_refl run.model)

no_run : {X : Type 0} {a : BenchmarkRun} → none ≡ some a → X
no_run h = cc

some_injective : (a b : BenchmarkRun) → some a ≡ some b → a ≡ b
some_injective a b e = cc

-- A run of the list that the decision considers, at its configuration and model.
pub record IsCollected (runs : List BenchmarkRun) (c m : String) (r : BenchmarkRun) : Type 0 where
  pub listed : In r runs
  pub considered : is_decision_run r ≡ true
  pub configured : r.configuration ≡ c
  pub modelled : r.model ≡ m

later :
    (run : BenchmarkRun) (runs : List BenchmarkRun) (c m : String) (r : BenchmarkRun)
    → IsCollected runs c m r
    → IsCollected (run ∷ runs) c m r
later run runs c m r h = record {
  listed = inr h.listed;
  considered = h.considered;
  configured = h.configured;
  modelled = h.modelled;
}

pub collect_sound :
    (runs : List BenchmarkRun) (d : DecisionRuns) (c m : String) (r : BenchmarkRun)
    → lookup c m (collect runs d) ≡ some r
    → (lookup c m d ≡ some r) ⊎ IsCollected runs c m r
unfolding collect
collect_sound [] d c m r h = inl h
collect_sound (run ∷ runs) d c m r h = elim (Bool-cases (is_decision_run run)) [
  | inr n ↦ elim (collect_sound runs d c m r (rw n at h)) [
    | inl old ↦ inl old
    | inr new ↦ inr (later run runs c m r new)
  ]
  | inl y ↦ elim (collect_sound runs (add_run run d) c m r (rw y at h)) [
    | inr new ↦ inr (later run runs c m r new)
    | inl here ↦
        let look = lookup-add_run c m run d in
        elim (Bool-cases (is_at c m run)) [
          | inr n ↦ inl (sym (look ∙ rw n) ∙ here)
          | inl k ↦
              let at : run ≡ r = some_injective run r (sym (look ∙ rw k) ∙ here) in
              let both = is_at_both c m run k in
              inr (
                subst (IsCollected (run ∷ runs) c m) at (record {
                  listed = inl refl;
                  considered = y;
                  configured = both.0;
                  modelled = both.1;
                }))
        ]
  ]
]

collect_keeps :
    (runs : List BenchmarkRun) (d : DecisionRuns) (c m : String) (r : BenchmarkRun)
    → lookup c m d ≡ some r
    → (s : BenchmarkRun) × (lookup c m (collect runs d) ≡ some s)
unfolding collect
collect_keeps [] d c m r h = (r, h)
collect_keeps (run ∷ runs) d c m r h = elim (Bool-cases (is_decision_run run)) [
  | inr n ↦ rw n (collect_keeps runs d c m r h)
  | inl y ↦
      let look = lookup-add_run c m run d in
      elim (Bool-cases (is_at c m run)) [
        | inr n ↦ rw y (collect_keeps runs (add_run run d) c m r (look ∙ rw n h))
        | inl k ↦ rw y (collect_keeps runs (add_run run d) c m run (look ∙ rw k))
      ]
]

abbrev pub IsFound : List BenchmarkRun → DecisionRuns → BenchmarkRun → Type 0
IsFound runs d r = (s : BenchmarkRun) × (lookup r.configuration r.model (collect runs d) ≡ some s)

collect_first :
    (run : BenchmarkRun) (runs : List BenchmarkRun) (d : DecisionRuns)
    → is_decision_run run ≡ true
    → IsFound (run ∷ runs) d run
unfolding collect
collect_first run runs d h =
    let look = lookup-add_run run.configuration run.model run d in
    rw h (
      collect_keeps runs (add_run run d) run.configuration run.model run
        (look ∙ rw (is_at_own run)))

pub collect_complete :
    (runs : List BenchmarkRun) (d : DecisionRuns) (r : BenchmarkRun)
    → In r runs
    → is_decision_run r ≡ true
    → IsFound runs d r
unfolding collect
collect_complete [] d r m h = absurd m
collect_complete (run ∷ runs) d r (inl at) h =
    subst (IsFound (run ∷ runs) d) (sym at)
      (collect_first run runs d (subst (λ x. is_decision_run x ≡ true) at h))
collect_complete (run ∷ runs) d r (inr m) h = collect_complete runs _ r m h

pub collect-IsKeyed :
    (runs : List BenchmarkRun) (d : DecisionRuns) → IsKeyed d → IsKeyed (collect runs d)
unfolding collect add_run
collect-IsKeyed [] d h = h
collect-IsKeyed (run ∷ runs) d h = elim (Bool-cases (is_decision_run run)) [
  | inr n ↦ rw n (collect-IsKeyed runs d h)
  | inl y ↦ rw y (collect-IsKeyed runs (add_run run d) (put-IsKeyed run.configuration _ d h))
]

shared_of_sound :
    (c : String) (s g : Option BenchmarkRun) (x : Shared)
    → In x (shared_of c s g)
    → (x.configuration ≡ c) × (s ≡ some x.sonnet_run) × (g ≡ some x.gpt_run)
shared_of_sound c none g x m = absurd m
shared_of_sound c (some s) none x m = absurd m
shared_of_sound c (some s) (some g) x (inl at) = (
  ap (λ (y : Shared). y.configuration) at,
  ap (λ (y : Shared). some y.sonnet_run) (sym at),
  ap (λ (y : Shared). some y.gpt_run) (sym at),
)
shared_of_sound c (some s) (some g) x (inr m) = absurd m

-- The configuration has a run of each model.
abbrev pub IsBoth : DecisionRuns → Shared → Type 0
IsBoth d x =
    (lookup x.configuration sonnet d ≡ some x.sonnet_run)
    × (lookup x.configuration gpt d ≡ some x.gpt_run)

abbrev HasEntry : DecisionRuns → Shared → Type 0
HasEntry d x =
    (by_model : ByModel) × In (x.configuration, by_model) d
    × (Dict.get sonnet by_model ≡ some x.sonnet_run)
    × (Dict.get gpt by_model ≡ some x.gpt_run)

all_shared-HasEntry : (d : DecisionRuns) (x : Shared) → In x (all_shared d) → HasEntry d x
unfolding all_shared
all_shared-HasEntry [] x m = absurd m
all_shared-HasEntry ((c, by_model) ∷ d) x m =
    let s = Dict.get sonnet by_model in
    let g = Dict.get gpt by_model in
    elim (In-append_cases x (shared_of c s g) (all_shared d) m) [
      | inl here ↦
          let (at, es, eg) = shared_of_sound c s g x here in
          (by_model, inl (ap (λ k. (k, by_model)) at), es, eg)
      | inr there ↦ let (b, i, es, eg) = all_shared-HasEntry d x there in (b, inr i, es, eg)
    ]

pub all_shared_sound :
    (d : DecisionRuns) (x : Shared) → IsKeyed d → In x (all_shared d) → IsBoth d x
all_shared_sound d x h m =
    let (b, i, es, eg) = all_shared-HasEntry d x m in
    let at = get-In x.configuration b d h i in (rw at es, rw at eg)

shared_of_both :
    (c : String) (x : Shared)
    → x.configuration ≡ c
    → In x (shared_of c (some x.sonnet_run) (some x.gpt_run))
shared_of_both c x key =
    inl λ i. record { configuration = key i; sonnet_run = x.sonnet_run; gpt_run = x.gpt_run }

shared_of_entry :
    (c : String) (s g : Option BenchmarkRun) (x : Shared)
    → x.configuration ≡ c
    → s ≡ some x.sonnet_run
    → g ≡ some x.gpt_run
    → In x (shared_of c s g)
shared_of_entry c s g x key es eg =
    subst (λ t. In x (shared_of c t g)) (sym es)
      (subst (λ t. In x (shared_of c (some x.sonnet_run) t)) (sym eg) (shared_of_both c x key))

HasEntry-all_shared : (d : DecisionRuns) (x : Shared) → HasEntry d x → In x (all_shared d)
unfolding all_shared
HasEntry-all_shared [] x (b, i, es, eg) = absurd i
HasEntry-all_shared ((c, by_model) ∷ d) x (b, inr i, es, eg) =
    In-append_right x _ (all_shared d) (HasEntry-all_shared d x (b, i, es, eg))
HasEntry-all_shared ((c, by_model) ∷ d) x (b, inl at, es, eg) =
    let same : b ≡ by_model = ap (λ (p : String × ByModel). p.1) at in
    let key : x.configuration ≡ c = ap (λ (p : String × ByModel). p.0) at in
    let ns : Dict.get sonnet by_model ≡ some x.sonnet_run = rw same at es in
    let ng : Dict.get gpt by_model ≡ some x.gpt_run = rw same at eg in
    In-append_left x _ (all_shared d) (shared_of_entry c _ _ x key ns ng)

pub all_shared_complete : (d : DecisionRuns) (x : Shared) → IsBoth d x → In x (all_shared d)
unfolding Dict.get
all_shared_complete d x h = elim (Option-cases (Dict.get x.configuration d)) [
  | inl n ↦ no_run (rw n at h.0)
  | inr (b, e) ↦ HasEntry-all_shared d x (b, In-get x.configuration b d e, rw e at h.0, rw e at h.1)
]
