-- ===== src/Benchmark/Results/Identity.antt =====
-- `_gating_identity` and `_require_identical_gating_questions` of benchmark/results.py.
use dexpi_datalog.Prelude.{
  String, Bool, true, false, ◌&&◌, ◌||◌, Option, none, some, List, [], ◌∷◌, ◌==◌, string_eq, nat_eq,
  contains, all_of, if◌then◌else◌,
}
use dexpi_datalog.Json.{ℤ, pos, negsuc, Json, null, bool, int, str, arr, obj, Fields}
use dexpi_datalog.Gate.Layers.{value_at}
use dexpi_datalog.Benchmark.Results.{
  duplicate_question, different_questions, attribute_error, type_error, index_error, Checked, valid,
  refused, bind, BenchmarkRun, episodes, is_gating,
}

-- (question_id, slice, category, size_bucket)
pub record Identity : Type 0 where
  pub question_id : String
  pub slice : String
  pub category : String
  pub size_bucket : Json

abbrev same_int : ℤ → ℤ → Bool
same_int (pos m) (pos n) = m == n
same_int (negsuc m) (negsuc n) = m == n
same_int _ _ = false

-- True is 1 and False is 0
abbrev number : Json → Option ℤ
number (int z) = some z
number (bool true) = some (pos 1)
number (bool false) = some (pos 0)
number _ = none

abbrev same_number : Option ℤ → Option ℤ → Bool
same_number (some m) (some n) = same_int m n
same_number _ _ = false

-- `==` on values that can be hashed
abbrev pub same_bucket : Json → Json → Bool
same_bucket null null = true
same_bucket (str s) (str t) = s == t
same_bucket v w = same_number (number v) (number w)

abbrev pub same_identity : Identity → Identity → Bool
same_identity a b =
    a.question_id == b.question_id
    && a.slice == b.slice
    && a.category == b.category
    && same_bucket a.size_bucket b.size_bucket

abbrev pub has_identity : List Identity → Identity → Bool
has_identity [] a = false
has_identity (b ∷ bs) a = same_identity b a || has_identity bs a

-- `==` on sets
abbrev pub same_identities : List Identity → List Identity → Bool
same_identities xs ys = all_of (has_identity ys) xs && all_of (has_identity xs) ys

abbrev is_hashable : Json → Bool
is_hashable (arr xs) = false
is_hashable (obj d) = false
is_hashable _ = true

module _ (to_str : Json → String) where
  abbrev pub identity_of : Fields → Identity
  identity_of episode = record {
    question_id = to_str (value_at "question_id" episode);
    slice = to_str (value_at "slice" episode);
    category = to_str (value_at "category" episode);
    size_bucket = value_at "size_bucket" episode;
  }

  abbrev with_identity : Identity → Checked (List Identity) → Checked (List Identity)
  with_identity i rest =
      if is_hashable i.size_bucket then bind rest (λ is. valid (i ∷ is)) else refused type_error

  -- One episode, from the results for the rest with and without its question seen.
  unfoldable pub identify :
      String
      → List String
      → Fields
      → Checked (List Identity)
      → Checked (List Identity)
      → Checked (List Identity)
  unfolding is_gating
  identify path seen episode kept skipped =
      let i = identity_of episode in
      if is_gating episode
      then (if contains seen i.question_id
          then refused (duplicate_question path i.question_id)
          else with_identity i kept)
      else skipped

  -- The identities after the questions that were seen; a set, so that doubles do not matter.
  unfoldable pub identities : String → List String → List Json → Checked (List Identity)
  unfolding identify
  identities path seen [] = valid []
  identities path seen (obj episode ∷ es) =
      identify path seen episode (identities path ((identity_of episode).question_id ∷ seen) es)
        (identities path seen es)
  identities path seen (_ ∷ es) = refused attribute_error

  -- `_gating_identity`
  unfoldable pub gating_identity : BenchmarkRun → Checked (List Identity)
  unfolding identities episodes
  gating_identity run = bind (episodes run) (identities run.report_path [])

  unfoldable pub require_same :
      String → List Identity → List BenchmarkRun → Checked (List BenchmarkRun)
  unfolding gating_identity
  require_same path reference [] = valid []
  require_same path reference (run ∷ runs) =
      let rest = require_same path reference runs in
      bind (gating_identity run) λ is.
        if same_identities is reference
        then bind rest (λ rs. valid (run ∷ rs))
        else refused (different_questions run.report_path path)

  -- `_require_identical_gating_questions`, with the runs that it was given
  unfoldable pub require_identical_gating_questions :
      List BenchmarkRun → Checked (List BenchmarkRun)
  unfolding require_same gating_identity
  require_identical_gating_questions [] = refused index_error
  require_identical_gating_questions (run ∷ runs) =
      bind (gating_identity run) λ reference. require_same run.report_path reference runs
