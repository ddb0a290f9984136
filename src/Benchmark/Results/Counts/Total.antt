-- ===== src/Benchmark/Results/Counts/Total.antt =====
-- On a validated run `_gating_counts` of benchmark/results.py counts every gating episode.
use mathlib.Core.Path.{subst}
use dexpi_datalog.Prelude.{
  ℕ, ◌+◌, ◌≤◌, String, ◌≡◌, refl, sym, ◌⊎◌, inl, inr, Bool, true, false, not, Option, none, some,
  List, [], ◌∷◌, ◌==◌, string_eq, nat_eq, contains, Bool-cases, arith,
}
use dexpi_datalog.Json.{Json, null, bool, int, str, arr, obj, Fields, truthy}
use dexpi_datalog.Gate.Layers.{value_at}
use dexpi_datalog.Benchmark.Results.{
  ResultsReportError, valid, BenchmarkRun, slices, slice_trap, question_categories,
  compliance_universal, retrieval_local, is_gating, exact_verdict_with_witnesses, is_one_of,
  is_text,
}
use dexpi_datalog.Benchmark.Results.Validate.{
  first_of, same_bool, validate_episode, validate_episodes, validate_identified, validate_graded,
  validate_slice, validate_category, validate_grade_fields, graded_fields,
}
use dexpi_datalog.Benchmark.Results.Counts.{
  Counts, zero_counts, bit, counted, count_in, count_episode, count_episodes,
}

-- What an episode that passed the validation has, for the counts.
abbrev HasCategory : Fields → Type 0
HasCategory e = is_gating e ≡ true → is_one_of question_categories (value_at "category" e) ≡ true

no_error : {X : Type 0} {e : ResultsReportError} → some e ≡ none → X
no_error h = cc

first_of_later : (a b : Option ResultsReportError) → first_of a b ≡ none → (a ≡ none) × (b ≡ none)
first_of_later none b h = (refl, h)
first_of_later (some e) b h = no_error h

category_of :
    (path question : String) (gating : Bool) (c : Json)
    → validate_category path question gating c ≡ none
    → gating ≡ true
    → is_one_of question_categories c ≡ true
unfolding validate_category
category_of path question true c h g = elim (Bool-cases (is_one_of question_categories c)) [
  | inl y ↦ y
  | inr n ↦ no_error (rw n at h)
]
category_of path question false c h g = cc

slice-HasCategory :
    (path question : String) (e : Fields) → validate_slice path question e ≡ none → HasCategory e
unfolding validate_slice is_gating
slice-HasCategory path question e h g =
    let slice = value_at "slice" e in
    elim (Bool-cases (is_one_of slices slice)) [
      | inr n ↦ no_error (rw (n, validate_slice) at h)
      | inl y ↦
          elim (Bool-cases
            (same_bool (truthy (value_at "gating" e)) (not (is_text slice_trap slice)))) [
              | inr n ↦ no_error (rw (y, n, validate_slice) at h)
              | inl z ↦
                  category_of path question (not (is_text slice_trap slice)) (value_at "category" e)
                    (rw (y, z, validate_slice) at h) g
            ]
    ]

graded-HasCategory :
    (path question : String) (e : Fields) (grade : Json)
    → validate_graded path question e grade ≡ none
    → HasCategory e
unfolding validate_graded
graded-HasCategory path question e (obj d) h =
    slice-HasCategory path question e
      ((first_of_later (validate_grade_fields path question d graded_fields) _ h).1)
graded-HasCategory path question e null h = no_error h
graded-HasCategory path question e (bool b) h = no_error h
graded-HasCategory path question e (int z) h = no_error h
graded-HasCategory path question e (str s) h = no_error h
graded-HasCategory path question e (arr xs) h = no_error h

identified-HasCategory :
    (path : String) (e : Fields) (id : Json) → validate_identified path e id ≡ none → HasCategory e
unfolding validate_identified
identified-HasCategory path e (str q) h = elim (Bool-cases (q == "")) [
  | inl y ↦ no_error (rw y at h)
  | inr n ↦ graded-HasCategory path q e (value_at "grade" e) (rw n at h)
]
identified-HasCategory path e null h = no_error h
identified-HasCategory path e (bool b) h = no_error h
identified-HasCategory path e (int z) h = no_error h
identified-HasCategory path e (arr xs) h = no_error h
identified-HasCategory path e (obj d) h = no_error h

-- The number of episodes that gate.
abbrev pub number_gating : List Json → ℕ
number_gating [] = 0
number_gating (obj e ∷ es) = bit (is_gating e) + number_gating es
number_gating (_ ∷ es) = number_gating es

-- From `c` to `d`: `n` more questions, and no more new passes than new questions in a category.
pub record IsCounted (n : ℕ) (c d : Counts) : Type 0 where
  pub all_counted :
      d.compliance.questions + d.retrieval.questions
      ≡ c.compliance.questions + c.retrieval.questions + n
  pub compliance_bounded :
      d.compliance.passed + c.compliance.questions ≤ d.compliance.questions + c.compliance.passed
  pub retrieval_bounded :
      d.retrieval.passed + c.retrieval.questions ≤ d.retrieval.questions + c.retrieval.passed

IsCounted-refl : (c : Counts) → IsCounted 0 c c
IsCounted-refl c = record {
  all_counted = omega arith;
  compliance_bounded = omega arith;
  retrieval_bounded = omega arith;
}

IsCounted-trans :
    {m n : ℕ} (c d e : Counts) → IsCounted m c d → IsCounted n d e → IsCounted (m + n) c e
IsCounted-trans c d e h k = record {
  all_counted = omega (arith, h.all_counted, k.all_counted);
  compliance_bounded = omega (arith, h.compliance_bounded, k.compliance_bounded);
  retrieval_bounded = omega (arith, h.retrieval_bounded, k.retrieval_bounded);
}

bit_le : (b : Bool) → bit b ≤ 1
bit_le true = omega arith
bit_le false = omega arith

category-cases :
    (category : String)
    → contains question_categories category ≡ true
    → (category ≡ compliance_universal) ⊎ (category ≡ retrieval_local)
category-cases category h = ground (
  arith,
  string_eq.equals_iff compliance_universal category,
  string_eq.equals_iff retrieval_local category,
)

abbrev CountsIn : String → Bool → Counts → Type 0
CountsIn category exact c = (d : Counts) × (count_in category exact c ≡ valid d) × IsCounted 1 c d

count_in-IsCounted :
    (category : String) (exact : Bool) (c : Counts)
    → contains question_categories category ≡ true
    → CountsIn category exact c
unfolding count_in
count_in-IsCounted category exact c h =
    let small = bit_le exact in
    elim (category-cases category h) [
      | inl e ↦
          subst (λ k. CountsIn k exact c) (sym e)
            (
              record c { compliance = counted exact c.compliance },
              refl,
              record {
                all_counted = omega arith;
                compliance_bounded = omega (arith, small);
                retrieval_bounded = omega arith;
              },
            )
      | inr e ↦
          subst (λ k. CountsIn k exact c) (sym e)
            (
              record c { retrieval = counted exact c.retrieval },
              refl,
              record {
                all_counted = omega arith;
                compliance_bounded = omega arith;
                retrieval_bounded = omega (arith, small);
              },
            )
    ]

module _ (to_str : Json → String) (keeps_text : (s : String) → to_str (str s) ≡ s) where
  text_category :
      (v : Json)
      → is_one_of question_categories v ≡ true
      → contains question_categories (to_str v) ≡ true
  text_category (str s) h = rw (keeps_text s) h
  text_category null h = cc
  text_category (bool b) h = cc
  text_category (int z) h = cc
  text_category (arr xs) h = cc
  text_category (obj d) h = cc

  count_episode-IsCounted :
      (e : Fields) (c : Counts)
      → HasCategory e
      → (d : Counts) × (count_episode to_str e c ≡ valid d) × IsCounted (bit (is_gating e)) c d
  unfolding count_episode
  count_episode-IsCounted e c h = elim (Bool-cases (is_gating e)) [
    | inr n ↦ rw n (c, refl, IsCounted-refl c)
    | inl y ↦ rw y (
        count_in-IsCounted (to_str (value_at "category" e)) (exact_verdict_with_witnesses e) c
          (text_category (value_at "category" e) (h y)))
  ]

  count_episodes-IsCounted :
      (run : BenchmarkRun) (es : List Json) (c : Counts)
      → validate_episodes run es ≡ none
      → (d : Counts) × (count_episodes to_str es c ≡ valid d) × IsCounted (number_gating es) c d
  unfolding count_episodes validate_episodes validate_episode
  count_episodes-IsCounted run [] c h = (c, refl, IsCounted-refl c)
  count_episodes-IsCounted run (obj e ∷ es) c h =
      let both = first_of_later _ (validate_episodes run es) h in
      let id = value_at "question_id" e in
      let category = identified-HasCategory run.report_path e id both.0 in
      let (d, ed, hd) = count_episode-IsCounted e c category in
      let (f, ef, hf) = count_episodes-IsCounted run es d both.1 in
      (f, rw ed ef, IsCounted-trans c d f hd hf)
  count_episodes-IsCounted run (null ∷ es) c h = no_error h
  count_episodes-IsCounted run (bool b ∷ es) c h = no_error h
  count_episodes-IsCounted run (int z ∷ es) c h = no_error h
  count_episodes-IsCounted run (str s ∷ es) c h = no_error h
  count_episodes-IsCounted run (arr xs ∷ es) c h = no_error h

  -- On the episodes of a run that passed the validation, where str keeps a text, counting raises
  -- no exception: the two categories together have as many questions as episodes gate, and no
  -- category has more passes than questions.
  pub count_episodes_total :
      (run : BenchmarkRun) (es : List Json)
      → validate_episodes run es ≡ none
      → (d : Counts) × (count_episodes to_str es zero_counts ≡ valid d)
        × (d.compliance.questions + d.retrieval.questions ≡ number_gating es)
        × (d.compliance.passed ≤ d.compliance.questions)
        × (d.retrieval.passed ≤ d.retrieval.questions)
  count_episodes_total run es h =
      let (d, e, k) = count_episodes-IsCounted run es zero_counts h in
      (
        d,
        e,
        omega (arith, k.all_counted),
        omega (arith, k.compliance_bounded),
        omega (arith, k.retrieval_bounded),
      )
