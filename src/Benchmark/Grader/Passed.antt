-- ===== src/Benchmark/Grader/Passed.antt =====
-- When `grade` of benchmark/grader.py passes an answer.
use text.Mathlib.TextEquality.{eq_iff}
use dexpi_datalog.Prelude.{
  String, ◌≡◌, refl, ◌↔◌, inl, inr, Bool, true, false, not, ◌&&◌, Option, none, some, List, [], ◌∷◌,
  ◌==◌, string_eq, contains, In, Bool-cases, arith, if◌then◌else◌,
}
use dexpi_datalog.Prelude.Text.{is_blank}
use dexpi_datalog.Prelude.Sets.{
  distinct, meet, minus, contains_iff, In-keep, In-distinct, SameMembers, same_iff, IsSubset,
}
use dexpi_datalog.Json.{Json, Fields}
use dexpi_datalog.Benchmark.Contract.{
  source_conclusion_verdicts, posture_source_grounded, TrapRubric, TrapJudgment, StructuredAnswer,
  GroundTruth,
}
use dexpi_datalog.Benchmark.Grader.{
  known_node_ids, is_empty, judged_refusal, judged_redirect, qualify, is_not_false, grade_known,
  grade,
}

-- A judge praised both the refusal and the redirect.
abbrev pub IsPraised : Option TrapJudgment → Type 0
IsPraised none = ⊥
IsPraised (some j) = (j.grounded_refusal ≡ true) × (j.graceful_redirect ≡ true)

-- The posture fits the verdict, or the answer satisfies the rubric of a trap question.
abbrev pub Qualifies : StructuredAnswer → Option TrapRubric → Option TrapJudgment → Type 0
Qualifies answer none judgment =
    (In answer.verdict source_conclusion_verdicts) ↔ (answer.posture ≡ posture_source_grounded)
Qualifies answer (some rubric) judgment =
    (is_blank answer.answer_text ≡ false)
    × (answer.witness_ids ≡ [])
    × (answer.posture ≡ rubric.expected_posture)
    × IsPraised judgment

pub record IsCreditable (nodes : List String) (answer : StructuredAnswer) (truth : GroundTruth)
    (rubric : Option TrapRubric) (judgment : Option TrapJudgment) : Type 0 where
  pub right_verdict : answer.verdict ≡ truth.verdict
  pub right_witnesses : SameMembers answer.witness_ids truth.witness_ids
  pub known_witnesses : IsSubset answer.witness_ids nodes
  pub qualified : Qualifies answer rubric judgment

is_empty_iff : (xs : List String) → (is_empty xs ≡ true) ↔ (xs ≡ [])
is_empty_iff [] = (λ h. refl, λ h. refl)
is_empty_iff (x ∷ xs) = (λ h. cc, λ h. cc)

nothing_in : (xs : List String) → (is_empty xs ≡ true) ↔ ((a : String) → In a xs → ⊥)
nothing_in [] = (λ h a m. m, λ h. refl)
nothing_in (x ∷ xs) = (λ h. cc, λ h. absurd (h x (inl refl)))

-- xs - ys is empty exactly where xs is a subset of ys.
minus_empty : (xs ys : List String) → (is_empty (minus xs ys) ≡ true) ↔ IsSubset xs ys
minus_empty xs ys =
    let empty = nothing_in (minus xs ys) in
    let inside = λ (a : String). In-keep (λ x. not (contains ys x)) xs a in
    (
      λ h a m. elim (Bool-cases (contains ys a)) [
        | inl y ↦ (contains_iff ys a).0 y
        | inr n ↦ absurd (empty.0 h a ((inside a).1 (m, rw n)))
      ],
      λ s. empty.1 λ a m.
          let (i, q) = (inside a).0 m in
          let known : contains ys a ≡ true = (contains_iff ys a).1 (s a i) in bad (rw known at q),
    )
  where
    bad : ◌≡◌ {A = Bool} false true → ⊥
    bad h = cc

module _ (nodes given expected : List String) where
  abbrev witnesses_right : Bool
  witnesses_right =
      is_empty (minus given nodes)
      && is_empty (minus expected given)
      && is_empty (minus (meet given nodes) expected)

  witnesses_iff : (witnesses_right ≡ true) ↔ (SameMembers given expected × IsSubset given nodes)
  witnesses_iff =
      let unknown = minus_empty given nodes in
      let missing = minus_empty expected given in
      let extra = minus_empty (meet given nodes) expected in
      let met = λ (a : String). In-keep (contains nodes) given a in
      (
        λ h.
            let u : is_empty (minus given nodes) ≡ true = ground (arith, h) in
            let m : is_empty (minus expected given) ≡ true = ground (arith, h) in
            let x : is_empty (minus (meet given nodes) expected) ≡ true = ground (arith, h) in
            let known = unknown.0 u in
            (
              λ a. (
                λ i. extra.0 x a ((met a).1 (i, (contains_iff nodes a).1 (known a i))),
                λ i. missing.0 m a i,
              ),
              known,
            ),
        λ (same, known).
            let u = unknown.1 known in
            let m = missing.1 (λ a i. (same a).1 i) in
            let x = extra.1 (λ a i. (same a).0 ((met a).0 i).0) in rw (u, m) x,
      )

praise_iff :
    (j : Option TrapJudgment)
    → IsPraised j ↔ ((judged_refusal j ≡ true) × (judged_redirect j ≡ true))
praise_iff none = (λ h. absurd h, λ h. cc)
praise_iff (some j) = (λ h. h, λ h. h)

impossible : {X : Type 0} → ◌≡◌ {A = Bool} false true → X
impossible h = cc

-- A test that is taken as it is where another holds, and negated where it does not.
agree_iff :
    {P Q : Type 0} (c g : Bool)
    → (c ≡ true) ↔ P
    → (g ≡ true) ↔ Q
    → (((if c then g else not g) && true) ≡ true) ↔ (P ↔ Q)
agree_iff true true p q = (λ h. (λ x. q.0 refl, λ y. p.0 refl), λ h. refl)
agree_iff true false p q = (λ h. cc, λ h. q.1 (h.0 (p.0 refl)))
agree_iff false true p q = (λ h. cc, λ h. p.1 (h.1 (q.0 refl)))
agree_iff false false p q = (λ h. (λ x. impossible (p.1 x), λ y. impossible (q.1 y)), λ h. refl)

qualify_iff :
    (answer : StructuredAnswer) (rubric : Option TrapRubric) (judgment : Option TrapJudgment)
    → (((qualify answer rubric judgment).consistent
          && is_not_false (qualify answer rubric judgment).rubric_passed)
        ≡ true)
      ↔ Qualifies answer rubric judgment
unfolding qualify
qualify_iff answer none judgment =
    agree_iff (contains source_conclusion_verdicts answer.verdict)
      (answer.posture == posture_source_grounded)
      (contains_iff source_conclusion_verdicts answer.verdict)
      (eq_iff answer.posture posture_source_grounded)
qualify_iff answer (some rubric) judgment =
    let praised = praise_iff judgment in
    let bare = is_empty_iff answer.witness_ids in
    let posture = eq_iff answer.posture rubric.expected_posture in
    (
      λ h. (
        ground (arith, h),
        bare.0 (ground (arith, h)),
        posture.0 (ground (arith, h)),
        praised.1 (ground (arith, h), ground (arith, h)),
      ),
      λ (t, w, p, j). let praise = praised.0 j in rw (posture.1 p, t, bare.1 w, praise.0) praise.1,
    )

module _ (nodes : List String) (answer : StructuredAnswer) (truth : GroundTruth)
    (rubric : Option TrapRubric) (judgment : Option TrapJudgment) where
  grade_known_passes :
      ((grade_known nodes answer truth rubric judgment).passed ≡ true)
      ↔ IsCreditable nodes answer truth rubric judgment
  unfolding grade_known
  grade_known_passes =
      let given = distinct answer.witness_ids in
      let expected = distinct truth.witness_ids in
      let w = witnesses_iff nodes given expected in
      let q = qualify_iff answer rubric judgment in
      let same = same_iff answer.witness_ids truth.witness_ids in
      let into = In-distinct answer.witness_ids in
      let verdict = eq_iff answer.verdict truth.verdict in
      (
        λ h.
            let right : witnesses_right nodes given expected ≡ true = ground (arith, h) in
            let (s, k) = w.0 right in
            record {
              right_verdict = verdict.0 (ground (arith, h));
              right_witnesses = same.0 s;
              known_witnesses = λ a i. k a ((into a).1 i);
              qualified = q.0 (ground (arith, h));
            },
        λ h.
            let right = w.1 (same.1 h.right_witnesses, λ a i. h.known_witnesses a ((into a).0 i)) in
            rw (verdict.1 h.right_verdict, right) (q.1 h.qualified),
      )

-- An answer passes exactly where its verdict is the expected one, its witnesses are the expected
-- ones, whatever their order and number, and all known to the graph facts, and it qualifies: a
-- trap question asks for a text, no witnesses, the posture of the rubric, and a judge's praise of
-- refusal and redirect, and every other for the source-grounded posture exactly with a verdict
-- that concludes from the source.
pub grade_passes_iff :
    (to_str : Json → String) (answer : StructuredAnswer) (truth : GroundTruth) (facts : Fields)
    (rubric : Option TrapRubric) (judgment : Option TrapJudgment)
    → ((grade to_str answer truth facts rubric judgment).passed ≡ true)
      ↔ IsCreditable (known_node_ids to_str facts) answer truth rubric judgment
unfolding grade
grade_passes_iff to_str answer truth facts rubric judgment =
    grade_known_passes (known_node_ids to_str facts) answer truth rubric judgment
