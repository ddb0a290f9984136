-- ===== src/Benchmark/Results/Decision/Verdict.antt =====
-- What the decision of benchmark/results.py says of the runs.
use mathlib.Core.Path.{subst}
use text.Mathlib.TextEquality.{eq_iff}
use dexpi_datalog.Prelude.{
  String, ◌≡◌, refl, sym, ap, ◌∙◌, ◌↔◌, inl, inr, Bool, true, false, List, [], ◌∷◌, ◌++◌, string_eq,
  nat_eq, In, Bool-cases, Option-cases, arith,
}
use dexpi_datalog.Prelude.Sort.{In-sort}
use dexpi_datalog.Json.{Json}
use dexpi_datalog.Benchmark.Results.{
  Checked, valid, refused, bind, BenchmarkRun, episodes, ResultsReportError,
}
use dexpi_datalog.Benchmark.Results.Counts.{
  Counts, evaluation_of, zero_counts, count_episodes, assessed, gating_counts,
}
use dexpi_datalog.Benchmark.Results.Identity.{require_identical_gating_questions}
use dexpi_datalog.Benchmark.Results.Decision.{
  DecisionRuns, Shared, all_shared, shared_configurations, runs_of, Scored, strongest, Failure,
  failures_of, Decision, decision_of, decided, score_all, decide_shared, decide, verdict_of,
  score_configuration, configuration_le, decision_build, decision_stand_down, has_model, sonnet,
  gpt,
}
use dexpi_datalog.Benchmark.Results.Decision.Strongest.{
  IsPassing, IsAssessed, IsScorable, ClearsEveryGate, strongest_clears, In-strongest,
}

pub bind_gives :
    {A B : Type 0} (c : Checked A) (f : A → Checked B) (b : B)
    → bind c f ≡ valid b
    → (a : A) × (c ≡ valid a) × (f a ≡ valid b)
bind_gives (valid a) f b h = (a, refl, h)
bind_gives (refused e) f b h = cc

no_value :
    {A X : Type 0} {e : ResultsReportError} {a : A} → ◌≡◌ {A = Checked A} (refused e) (valid a) → X
no_value h = cc

valid_injective : {A : Type 0} (a b : A) → valid a ≡ valid b → a ≡ b
valid_injective a b h = cc

impossible : {X : Type 0} → ◌≡◌ {A = Bool} false true → X
impossible h = cc

failures_none : (m : String) (c : Counts) → (failures_of m (evaluation_of c) ≡ []) ↔ IsPassing c
unfolding failures_of evaluation_of
failures_none m c = ground arith

verdict_stands_down : (fs : List Failure) → (verdict_of fs ≡ decision_stand_down) ↔ (fs ≡ [])
verdict_stands_down [] = (λ h. refl, λ h. refl)
verdict_stands_down (f ∷ fs) =
    (λ h. impossible ((eq_iff decision_build decision_stand_down).1 h), λ h. cc)

append_nil : (xs ys : List Failure) → (xs ++ ys ≡ []) ↔ ((xs ≡ []) × (ys ≡ []))
append_nil [] ys = (λ h. (refl, h), λ h. h.1)
append_nil (x ∷ xs) ys = (λ h. cc, λ h. cc)

decision_of_stands_down :
    (cs : List Shared) (s : Scored)
    → ((decision_of cs s).verdict ≡ decision_stand_down) ↔ ClearsEveryGate s
unfolding decision_of
decision_of_stands_down cs s =
    let a = failures_of sonnet (evaluation_of s.sonnet_counts) in
    let b = failures_of gpt (evaluation_of s.gpt_counts) in
    let p = failures_none sonnet s.sonnet_counts in
    let q = failures_none gpt s.gpt_counts in
    let v = verdict_stands_down (a ++ b) in
    let n = append_nil a b in
    (λ h. let e = n.0 (v.0 h) in (p.0 e.0, q.0 e.1), λ h. v.1 (n.1 (p.1 h.0, q.1 h.1)))

assessed-IsAssessed :
    (to_str : Json → String) (run : BenchmarkRun) (c d : Counts)
    → assessed to_str run c ≡ valid d
    → IsAssessed d
unfolding assessed
assessed-IsAssessed to_str run c d h = ground arith

module _ (to_str : Json → String) where
  gating_counts-IsAssessed :
      (run : BenchmarkRun) (c : Counts) → gating_counts to_str run ≡ valid c → IsAssessed c
  unfolding gating_counts
  gating_counts-IsAssessed run c h =
      let (d, e, f) =
        bind_gives (bind (episodes run) λ es. count_episodes to_str es zero_counts)
          (assessed to_str run) c h in
      assessed-IsAssessed to_str run d c f

  -- The entry is of the configuration, with the counts of its runs.
  pub record IsScoreOf (c : Shared) (s : Scored) : Type 0 where
    pub same : s.shared ≡ c
    pub sonnet_counted : gating_counts to_str c.sonnet_run ≡ valid s.sonnet_counts
    pub gpt_counted : gating_counts to_str c.gpt_run ≡ valid s.gpt_counts

  score_configuration-IsScoreOf :
      (c : Shared) (s : Scored) → score_configuration to_str c ≡ valid s → IsScoreOf c s
  unfolding score_configuration
  score_configuration-IsScoreOf c s h =
      let (a, ea, h1) = bind_gives (gating_counts to_str c.sonnet_run) _ s h in
      let (b, eb, h2) = bind_gives (gating_counts to_str c.gpt_run) _ s h1 in
      let at = valid_injective _ s h2 in
      record {
        same = ap (λ (x : Scored). x.shared) (sym at);
        sonnet_counted = ea ∙ ap (λ (x : Scored). valid x.sonnet_counts) at;
        gpt_counted = eb ∙ ap (λ (x : Scored). valid x.gpt_counts) at;
      }

  -- Every entry is of a configuration of the list, and each configuration has one.
  abbrev AreScoresOf : List Shared → List Scored → Type 0
  AreScoresOf cs scored =
      ((s : Scored) → In s scored → (c : Shared) × In c cs × IsScoreOf c s)
      × ((c : Shared) → In c cs → (s : Scored) × In s scored × IsScoreOf c s)

  score_all-AreScoresOf :
      (cs : List Shared) (scored : List Scored)
      → score_all to_str cs ≡ valid scored
      → AreScoresOf cs scored
  unfolding score_all
  score_all-AreScoresOf [] scored h =
      subst (AreScoresOf []) (valid_injective [] scored h) (λ s m. absurd m, λ c m. absurd m)
  score_all-AreScoresOf (c ∷ cs) scored h =
      let (s, es, h1) = bind_gives (score_configuration to_str c) _ scored h in
      let (ss, ess, h2) = bind_gives (score_all to_str cs) _ scored h1 in
      let here = score_configuration-IsScoreOf c s es in
      let rest = score_all-AreScoresOf cs ss ess in
      subst (AreScoresOf (c ∷ cs)) (valid_injective (s ∷ ss) scored h2) (
        λ t m. elim m [
          | inl at ↦ (c, inl refl, subst (IsScoreOf c) (sym at) here)
          | inr k ↦ let (x, i, j) = rest.0 t k in (x, inr i, j)
        ],
        λ d m. elim m [
          | inl at ↦ (s, inl refl, subst (λ x. IsScoreOf x s) (sym at) here)
          | inr k ↦ let (x, i, j) = rest.1 d k in (x, inr i, j)
        ],
      )

  -- The run has questions in both categories, and meets the bar in both.
  abbrev pub Meets : BenchmarkRun → Type 0
  Meets run = (c : Counts) × (gating_counts to_str run ≡ valid c) × IsPassing c

  abbrev pub IsMetBy : Shared → Type 0
  IsMetBy c = Meets c.sonnet_run × Meets c.gpt_run

  scored-IsMetBy : (c : Shared) (s : Scored) → IsScoreOf c s → IsMetBy c ↔ ClearsEveryGate s
  scored-IsMetBy c s h = (
    λ ((a, ea, pa), (b, eb, pb)). (
      subst IsPassing (valid_injective a s.sonnet_counts (sym ea ∙ h.sonnet_counted)) pa,
      subst IsPassing (valid_injective b s.gpt_counts (sym eb ∙ h.gpt_counted)) pb,
    ),
    λ p. ((s.sonnet_counts, h.sonnet_counted, p.0), (s.gpt_counts, h.gpt_counted, p.1)),
  )

  scored-IsScorable : (c : Shared) (s : Scored) → IsScoreOf c s → IsScorable s
  scored-IsScorable c s h = (
    gating_counts-IsAssessed c.sonnet_run s.sonnet_counts h.sonnet_counted,
    gating_counts-IsAssessed c.gpt_run s.gpt_counts h.gpt_counted,
  )

  abbrev IsMetBySome : List Shared → Type 0
  IsMetBySome cs = (c : Shared) × In c cs × IsMetBy c

  decided_stands_down :
      (cs : List Shared) (scored : List Scored) (d : Decision)
      → AreScoresOf cs scored
      → decided cs (strongest scored) ≡ valid d
      → (d.verdict ≡ decision_stand_down) ↔ IsMetBySome cs
  decided_stands_down cs scored d h e = elim (Option-cases (strongest scored)) [
    | inl n ↦ no_value (rw n at e)
    | inr (b, at) ↦
        let same : decision_of cs b ≡ d = valid_injective _ _ (rw at at e) in
        let now = decision_of_stands_down cs b in
        let (own, own_in, own_score) = h.0 b (In-strongest scored b at) in
        (
          λ v.
              let clear = now.0 (ap (λ (x : Decision). x.verdict) same ∙ v) in
              (own, own_in, (scored-IsMetBy own b own_score).1 clear),
          λ (c, m, met).
              let (s, s_in, s_score) = h.1 c m in
              let scorable : (t : Scored) → In t scored → IsScorable t =
                λ t k. let (x, i, j) = h.0 t k in scored-IsScorable x t j in
              let clear =
                strongest_clears scored scorable s b s_in ((scored-IsMetBy c s s_score).0 met) at in
              ap (λ (x : Decision). x.verdict) (sym same) ∙ now.1 clear,
        )
  ]

  decide_shared_stands_down :
      (cs : List Shared) (d : Decision)
      → decide_shared to_str cs ≡ valid d
      → (d.verdict ≡ decision_stand_down) ↔ IsMetBySome cs
  unfolding decide_shared
  decide_shared_stands_down [] d h = cc
  decide_shared_stands_down (c ∷ cs) d h =
      let (rs, er, h1) =
        bind_gives (require_identical_gating_questions to_str (runs_of (c ∷ cs))) _ d h in
      let (scored, es, h2) = bind_gives (score_all to_str (c ∷ cs)) _ d h1 in
      decided_stands_down (c ∷ cs) scored d (score_all-AreScoresOf (c ∷ cs) scored es) h2

  pub decide_stands_down :
      (ds : DecisionRuns) (d : Decision)
      → decide to_str ds ≡ valid d
      → (d.verdict ≡ decision_stand_down) ↔ IsMetBySome (all_shared ds)
  unfolding decide shared_configurations
  decide_stands_down ds d h = elim (Bool-cases (has_model sonnet ds)) [
    | inr n ↦ no_value (rw n at h)
    | inl y ↦ elim (Bool-cases (has_model gpt ds)) [
      | inr n ↦ no_value (rw (y, n) at h)
      | inl z ↦
          let shared = shared_configurations ds in
          let both = decide_shared_stands_down shared d (rw (y, z) at h) in
          let same = λ (c : Shared). In-sort configuration_le c (all_shared ds) in
          (
            λ v. let (c, m, met) = both.0 v in (c, (same c).0 m, met),
            λ (c, m, met). both.1 (c, (same c).1 m, met),
          )
    ]
  ]
