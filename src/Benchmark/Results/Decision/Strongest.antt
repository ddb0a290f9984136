-- ===== src/Benchmark/Results/Decision/Strongest.antt =====
-- The strongest configuration of benchmark/results.py: the last one in the order of the scores.
use mathlib.Core.Path.{subst}
use dexpi_datalog.Prelude.{
  ℕ, ◌*◌, ◌≤◌, ◌<◌, ◌≡◌, refl, sym, ◌∙◌, ◌↔◌, ◌⊎◌, inl, inr, true, some, List, [], ◌∷◌, In, arith,
}
use dexpi_datalog.Prelude.Ordered.{IsOrdered, sort-IsOrdered}
use dexpi_datalog.Prelude.Sort.{sort, text_le_total, In-sort}
use dexpi_datalog.Benchmark.Results.Fractions.{
  IsClear, IsFraction, at_most, at_most_total, IsClear-upward, least_positive_iff, least-IsFraction,
}
use dexpi_datalog.Benchmark.Results.Counts.{
  Tally, Counts, score_of, compliance_bar, retrieval_bar, compliance_margin, other_margins,
}
use dexpi_datalog.Benchmark.Results.Decision.{Scored, score, scored_le, last, strongest}

-- A category has its bar met: passed / questions is at least bar / 1000.
abbrev pub IsMet : ℕ → Tally → Type 0
IsMet bar t = bar * t.questions ≤ t.passed * 1000

-- Both categories have their bars met.
abbrev pub IsPassing : Counts → Type 0
IsPassing c = IsMet compliance_bar c.compliance × IsMet retrieval_bar c.retrieval

-- Both categories have questions.
abbrev pub IsAssessed : Counts → Type 0
IsAssessed c = (0 < c.compliance.questions) × (0 < c.retrieval.questions)

abbrev pub IsScorable : Scored → Type 0
IsScorable s = IsAssessed s.sonnet_counts × IsAssessed s.gpt_counts

-- Every gate is cleared, by both models.
abbrev pub ClearsEveryGate : Scored → Type 0
ClearsEveryGate s = IsPassing s.sonnet_counts × IsPassing s.gpt_counts

abbrev IsLeastClear : Scored → Type 0
IsLeastClear s = IsClear (score s).least_margin

gates_cleared_iff : (s : Scored) → IsScorable s → IsLeastClear s ↔ ClearsEveryGate s
unfolding score_of
gates_cleared_iff s h =
    let first = compliance_margin s.sonnet_counts in
    let both =
      least_positive_iff first (other_margins s.sonnet_counts s.gpt_counts) (omega (arith, h.0.0))
        (omega (arith, h.0.1), (omega (arith, h.1.0), (omega (arith, h.1.1), tt))) in
    (
      λ c. let d = both.0 c in ((d.0, d.1.0), (d.1.1.0, d.1.1.1.0)),
      λ c. both.1 (c.0.0, (c.0.1, (c.1.0, (c.1.1, tt)))),
    )

score-IsFraction : (s : Scored) → IsScorable s → IsFraction (score s).least_margin
unfolding score_of
score-IsFraction s h =
    least-IsFraction (compliance_margin s.sonnet_counts)
      (other_margins s.sonnet_counts s.gpt_counts) (omega (arith, h.0.0))
      (omega (arith, h.0.1), (omega (arith, h.1.0), (omega (arith, h.1.1), tt)))

scored_le_total : (a b : Scored) → (scored_le a b ≡ true) ⊎ (scored_le b a ≡ true)
unfolding scored_le
scored_le_total a b = ground (
  arith,
  at_most_total (score a).least_margin (score b).least_margin,
  at_most_total (score a).total_margin (score b).total_margin,
  text_le_total a.shared.configuration b.shared.configuration,
)

scored_le_least :
    (a b : Scored)
    → scored_le a b ≡ true
    → at_most (score a).least_margin (score b).least_margin ≡ true
unfolding scored_le
scored_le_least a b h = ground arith

clears_upward :
    (a b : Scored)
    → IsScorable a
    → IsScorable b
    → scored_le a b ≡ true
    → ClearsEveryGate a
    → ClearsEveryGate b
clears_upward a b ha hb h c = (gates_cleared_iff b hb).0 (
    IsClear-upward (score a).least_margin (score b).least_margin (score-IsFraction a ha)
      (scored_le_least a b h) ((gates_cleared_iff a ha).1 c))

some_injective : (a b : Scored) → some a ≡ some b → a ≡ b
some_injective a b e = cc

In-last : (xs : List Scored) (b : Scored) → last xs ≡ some b → In b xs
unfolding last
In-last [] b e = cc
In-last (x ∷ []) b e = inl (sym (some_injective x b e))
In-last (x ∷ y ∷ ys) b e = inr (In-last (y ∷ ys) b e)

last_clears :
    (xs : List Scored)
    → IsOrdered scored_le xs
    → ((s : Scored) → In s xs → IsScorable s)
    → (a b : Scored) → In a xs
    → ClearsEveryGate a
    → last xs ≡ some b
    → ClearsEveryGate b
unfolding last
last_clears [] o q a b m c e = absurd m
last_clears (x ∷ []) o q a b (inl at) c e = subst ClearsEveryGate (at ∙ some_injective x b e) c
last_clears (x ∷ []) o q a b (inr m) c e = absurd m
last_clears (x ∷ y ∷ ys) o q a b (inl at) c e =
    let here : ClearsEveryGate x = subst ClearsEveryGate at c in
    let next = clears_upward x y (q x (inl refl)) (q y (inr (inl refl))) o.0 here in
    last_clears (y ∷ ys) o.1 (λ s m. q s (inr m)) y b (inl refl) next e
last_clears (x ∷ y ∷ ys) o q a b (inr m) c e =
    last_clears (y ∷ ys) o.1 (λ s k. q s (inr k)) a b m c e

pub In-strongest : (xs : List Scored) (b : Scored) → strongest xs ≡ some b → In b xs
unfolding strongest
In-strongest xs b e = (In-sort scored_le b xs).0 (In-last (sort scored_le xs) b e)

-- Where any configuration clears every gate, the strongest one does.
pub strongest_clears :
    (xs : List Scored)
    → ((s : Scored) → In s xs → IsScorable s)
    → (a b : Scored) → In a xs
    → ClearsEveryGate a
    → strongest xs ≡ some b
    → ClearsEveryGate b
unfolding strongest
strongest_clears xs q a b m c e =
    last_clears (sort scored_le xs) (sort-IsOrdered scored_le scored_le_total xs)
      (λ s k. q s ((In-sort scored_le s xs).0 k)) a b ((In-sort scored_le a xs).1 m) c e
