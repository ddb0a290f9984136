-- ===== src/Benchmark/Grader/Metrics.antt =====
-- The metrics that `grade` of benchmark/grader.py reports.
use text.Mathlib.TextEquality.{eq_iff}
use dexpi_datalog.Prelude.{
  ℕ, ◌≤◌, ◌<◌, String, ◌≡◌, refl, ◌↔◌, inl, inr, Bool, true, false, Option, List, [], ◌∷◌, ◌==◌,
  string_eq, length, Bool-cases, arith,
}
use dexpi_datalog.Prelude.Sets.{
  distinct, meet, distinct-IsDistinct, IsDistinct, SameMembers, SameMembers-meet, length-meet-left,
  length-meet-right, same_iff,
}
use dexpi_datalog.Json.{Json, Fields}
use dexpi_datalog.Benchmark.Contract.{TrapRubric, TrapJudgment, StructuredAnswer, GroundTruth}
use dexpi_datalog.Benchmark.Grader.{
  Ratio, Grade, ratio, precision_of, recall_of, f1_of, credit_of, both_empty, grade_known, grade,
}

-- From 0 to 1.
abbrev pub IsRate : Ratio → Type 0
IsRate r = (r.part ≤ r.whole) × (0 < r.whole)

abbrev pub IsWhole : Ratio → Type 0
IsWhole r = r.part ≡ r.whole

ratio-IsRate : (n : ℕ) (xs : List String) → n ≤ length xs → IsRate (ratio n xs)
ratio-IsRate n [] h = (omega arith, omega arith)
ratio-IsRate n (x ∷ xs) h = (h, omega arith)

credit-IsRate : (b : Bool) (r : Ratio) → IsRate r → IsRate (credit_of b r)
credit-IsRate true r h = h
credit-IsRate false r h = (omega arith, h.1)

full_credit_iff :
    (b : Bool) (r : Ratio) → IsRate r → IsWhole (credit_of b r) ↔ ((b ≡ true) × IsWhole r)
full_credit_iff true r h = (λ e. (refl, e), λ e. e.1)
full_credit_iff false r h = (λ e. absurd (omega (arith, e, h.1)), λ e. cc)

f1-IsRate : (xs ys : List String) → IsDistinct xs → IsRate (f1_of xs ys)
f1-IsRate [] [] d = (omega arith, omega arith)
f1-IsRate [] (y ∷ ys) d = (omega arith, omega arith)
f1-IsRate (x ∷ xs) ys d =
    let left = length-meet-left (x ∷ xs) ys in
    let right = length-meet-right (x ∷ xs) ys d in (omega (arith, left, right), omega arith)

f1_is_one_iff :
    (xs ys : List String)
    → IsDistinct xs
    → IsDistinct ys
    → IsWhole (f1_of xs ys) ↔ SameMembers xs ys
f1_is_one_iff [] [] dx dy = (λ e a. (λ m. m, λ m. m), λ h. refl)
f1_is_one_iff [] (y ∷ ys) dx dy = (λ e. absurd (omega (arith, e)), λ h. absurd ((h y).1 (inl refl)))
f1_is_one_iff (x ∷ xs) ys dx dy =
    let left = length-meet-left (x ∷ xs) ys in
    let right = length-meet-right (x ∷ xs) ys dx in
    let sizes = SameMembers-meet (x ∷ xs) ys dx dy in
    (
      λ e. sizes.1 (omega (arith, e, left, right), omega (arith, e, left, right)),
      λ h. let k = sizes.0 h in omega (arith, k.0, k.1, left, right),
    )

precision-IsRate : (xs ys : List String) → IsRate (precision_of xs ys)
precision-IsRate xs ys = elim (Bool-cases (both_empty xs ys)) [
  | inl y ↦ rw y (omega arith, omega arith)
  | inr n ↦ rw n (ratio-IsRate (length (meet xs ys)) xs (length-meet-left xs ys))
]

recall-IsRate : (xs ys : List String) → IsDistinct xs → IsRate (recall_of xs ys)
recall-IsRate xs ys d = elim (Bool-cases (both_empty xs ys)) [
  | inl y ↦ rw y (omega arith, omega arith)
  | inr n ↦ rw n (ratio-IsRate (length (meet xs ys)) ys (length-meet-right xs ys d))
]

-- The metrics are rates, and whole exactly for the expected answer.
pub record IsMeasured (answer : StructuredAnswer) (truth : GroundTruth) (g : Grade) : Type 0 where
  pub precision_rate : IsRate g.witness_precision
  pub recall_rate : IsRate g.witness_recall
  pub f1_rate : IsRate g.witness_f1
  pub credit_rate : IsRate g.grounded_answer_credit
  pub f1_exact : IsWhole g.witness_f1 ↔ SameMembers answer.witness_ids truth.witness_ids
  pub credit_exact :
      IsWhole g.grounded_answer_credit
      ↔ ((answer.verdict ≡ truth.verdict) × SameMembers answer.witness_ids truth.witness_ids)

-- Precision, recall, F1 and credit lie between 0 and 1, without a division by zero; F1 is 1
-- exactly where the witnesses are the expected ones, and the credit where the verdict is too.
pub grade-IsMeasured :
    (to_str : Json → String) (answer : StructuredAnswer) (truth : GroundTruth) (facts : Fields)
    (rubric : Option TrapRubric) (judgment : Option TrapJudgment)
    → IsMeasured answer truth (grade to_str answer truth facts rubric judgment)
unfolding grade grade_known
grade-IsMeasured to_str answer truth facts rubric judgment =
    let given = distinct answer.witness_ids in
    let expected = distinct truth.witness_ids in
    let dg = distinct-IsDistinct answer.witness_ids in
    let de = distinct-IsDistinct truth.witness_ids in
    let same = same_iff answer.witness_ids truth.witness_ids in
    let f1 = f1_is_one_iff given expected dg de in
    let rate = f1-IsRate given expected dg in
    let right = answer.verdict == truth.verdict in
    let credit = full_credit_iff right (f1_of given expected) rate in
    let verdict = eq_iff answer.verdict truth.verdict in
    record {
      precision_rate = precision-IsRate given expected;
      recall_rate = recall-IsRate given expected dg;
      f1_rate = rate;
      credit_rate = credit-IsRate right (f1_of given expected) rate;
      f1_exact = (λ e. same.0 (f1.0 e), λ h. f1.1 (same.1 h));
      credit_exact = (
        λ e. let (v, w) = credit.0 e in (verdict.0 v, same.0 (f1.0 w)),
        λ (v, h). credit.1 (verdict.1 v, f1.1 (same.1 h)),
      );
    }
