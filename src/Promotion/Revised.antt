-- ===== src/Promotion/Revised.antt =====
-- What verification/promote_advisory.py changes in a pack when it counts up the version.
use dexpi_datalog.Prelude.{
  ℕ, zero, suc, Option-cases, if◌then◌else◌, String, ◌≡◌, refl, ap, inl, inr, Bool, true, not,
  Option, none, some, List, [], ◌∷◌, ◌++◌, ◌==◌, string_eq, all_of, Bool-cases,
}
use dexpi_datalog.Prelude.Text.{◌⊕◌, strip, starts_with, join}
use dexpi_datalog.Json.{ℤ, pos, negsuc}
use dexpi_datalog.Promotion.Lines.{splitlines, ends_line}
use dexpi_datalog.Promotion.Version.{
  bump_frontmatter_version, next_version, after_colon, split_closing, bumped, bump_meta, bump_lines,
}

abbrev IsFence : String → Type 0
IsFence l = (strip l == "---") ≡ true

-- Lines inside the metadata.
abbrev no_fence : String → Bool
no_fence l = not (strip l == "---")

abbrev no_version : String → Bool
no_version l = not (starts_with l "version:")

-- m is n + 1.
pub data IsSuccessor : ℤ → ℤ → Type 0 where
  from_natural : (n : ℕ) → IsSuccessor (pos n) (pos (suc n))
  to_zero : IsSuccessor (negsuc zero) (pos zero)
  from_negative : (n : ℕ) → IsSuccessor (negsuc (suc n)) (negsuc n)

next_version-IsSuccessor : (n : ℤ) → IsSuccessor n (next_version n)
next_version-IsSuccessor (pos n) = from_natural n
next_version-IsSuccessor (negsuc zero) = to_zero
next_version-IsSuccessor (negsuc (suc n)) = from_negative n

module _ (to_int : String → Option ℤ) (show : ℤ → String) where
  -- The version line, and the line with the next number; a version that is no number counts as 1.
  pub data IsCountedLine (line : String) : String → Type 0 where
    counted :
        (n m : ℤ)
        → to_int (strip (after_colon line)) ≡ some n
        → IsSuccessor n m
        → IsCountedLine line ("version: " ⊕ show m)
    no_number :
        to_int (strip (after_colon line)) ≡ none → IsCountedLine line ("version: " ⊕ show (pos 2))

  bumped-IsCountedLine : (line : String) → IsCountedLine line (bumped to_int show line)
  unfolding bumped
  bumped-IsCountedLine line = elim (Option-cases (to_int (strip (after_colon line)))) [
    | inl e ↦ rw e (no_number e)
    | inr (n, e) ↦ rw e (counted n (next_version n) e (next_version-IsSuccessor n))
  ]

  -- The metadata with its first version line counted up, or none.
  pub data IsCounted : List String → List String → Type 0 where
    unversioned : (meta : List String) → all_of no_version meta ≡ true → IsCounted meta meta
    versioned :
        (before : List String) (version : String) (after : List String)
        → all_of no_version before ≡ true
        → starts_with version "version:" ≡ true
        → (new : String) → IsCountedLine version new
        → IsCounted (before ++ version ∷ after) (before ++ new ∷ after)

  IsCounted-cons :
      (l : String) (old new : List String)
      → no_version l ≡ true
      → IsCounted old new
      → IsCounted (l ∷ old) (l ∷ new)
  IsCounted-cons l _ _ h (unversioned meta p) = unversioned (l ∷ meta) (rw h p)
  IsCounted-cons l _ _ h (versioned before v after p q new c) =
      versioned (l ∷ before) v after (rw h p) q new c

  bump_meta-IsCounted : (meta : List String) → IsCounted meta (bump_meta to_int show meta)
  unfolding bump_meta
  bump_meta-IsCounted [] = unversioned [] refl
  bump_meta-IsCounted (l ∷ ls) = elim (Bool-cases (starts_with l "version:")) [
    | inl y ↦ rw y (versioned [] l ls refl y (bumped to_int show l) (bumped-IsCountedLine l))
    | inr n ↦ rw n (IsCounted-cons l ls _ (ap not n) (bump_meta-IsCounted ls))
  ]

-- Where the metadata ends.
data IsClosing : List String → Option (List String × List String) → Type 0 where
  unclosed : (ls : List String) → all_of no_fence ls ≡ true → IsClosing ls none
  closed :
      (meta : List String) (close : String) (body : List String)
      → all_of no_fence meta ≡ true
      → IsFence close
      → IsClosing (meta ++ close ∷ body) (some (meta, close ∷ body))

IsClosing-cons :
    (l : String) (ls : List String) (o : Option (List String × List String))
    → no_fence l ≡ true
    → IsClosing ls o
    → IsClosing (l ∷ ls) (elim o [ none ↦ none | some (meta, body) ↦ some (l ∷ meta, body) ])
IsClosing-cons l _ _ h (unclosed ls p) = unclosed (l ∷ ls) (rw h p)
IsClosing-cons l _ _ h (closed meta close body p q) = closed (l ∷ meta) close body (rw h p) q

split_closing-IsClosing : (ls : List String) → IsClosing ls (split_closing ls)
unfolding split_closing
split_closing-IsClosing [] = unclosed [] refl
split_closing-IsClosing (l ∷ ls) = elim (Bool-cases (strip l == "---")) [
  | inl y ↦ rw y (closed [] l ls refl y)
  | inr n ↦ rw n (IsClosing-cons l ls _ (ap not n) (split_closing-IsClosing ls))
]

module _ (to_int : String → Option ℤ) (show : ℤ → String) where
  -- The lines of a text and what becomes of them; `none` is that the text stays as it is.
  pub data IsRevision : List String → Option (List String) → Type 0 where
    empty : IsRevision [] none
    no_metadata : (l : String) (ls : List String) → no_fence l ≡ true → IsRevision (l ∷ ls) none
    never_closed :
        (l : String) (ls : List String)
        → IsFence l
        → all_of no_fence ls ≡ true
        → IsRevision (l ∷ ls) none
    revised :
        (opening : String) (meta new : List String) (close : String) (body : List String)
        → IsFence opening
        → all_of no_fence meta ≡ true
        → IsFence close
        → IsCounted to_int show meta new
        → IsRevision (opening ∷ (meta ++ close ∷ body)) (some (opening ∷ (new ++ close ∷ body)))

  revised_closing :
      (l : String) (ls : List String) (o : Option (List String × List String))
      → IsFence l
      → IsClosing ls o
      → IsRevision (l ∷ ls) (elim o [
        | none ↦ none
        | some (meta, body) ↦ some (l ∷ (bump_meta to_int show meta ++ body))
      ])
  revised_closing l _ _ f (unclosed ls p) = never_closed l ls f p
  revised_closing l _ _ f (closed meta close body p q) =
      revised l meta _ close body f p q (bump_meta-IsCounted to_int show meta)

  bump_lines-IsRevision : (ls : List String) → IsRevision ls (bump_lines to_int show ls)
  unfolding bump_lines
  bump_lines-IsRevision [] = empty
  bump_lines-IsRevision (l ∷ ls) = elim (Bool-cases (strip l == "---")) [
    | inl y ↦ rw y (revised_closing l ls (split_closing ls) y (split_closing-IsClosing ls))
    | inr n ↦ rw n (no_metadata l ls (ap not n))
  ]

  -- A text and what becomes of it, by its lines.
  pub data IsRevisedText (text : String) : String → Type 0 where
    kept : IsRevision (splitlines text) none → IsRevisedText text text
    rewritten :
        (ls : List String)
        → IsRevision (splitlines text) (some ls)
        → IsRevisedText text (join "\n" ls ⊕ (if ends_line text then "\n" else ""))

  revised_text :
      (text : String) (o : Option (List String))
      → IsRevision (splitlines text) o
      → IsRevisedText text
          (elim o [ none ↦ text | some ls ↦ join "\n" ls ⊕ (if ends_line text then "\n" else "") ])
  revised_text text none r = kept r
  revised_text text (some ls) r = rewritten ls r

  -- Counting up the version of a text changes one line at most. Where its first line is "---" and a
  -- later one too, spaces around aside, the first line between them that starts with "version:"
  -- becomes the version of the next number (of 2, if it has no number), and every other line, those
  -- of the rules included, stays as and where it is; the lines are joined by newlines, with one at
  -- the end if the text had one. A text without these two lines stays as it is.
  pub bump_frontmatter_version-IsRevisedText :
      (text : String) → IsRevisedText text (bump_frontmatter_version to_int show text)
  unfolding bump_frontmatter_version
  bump_frontmatter_version-IsRevisedText text =
      revised_text text (bump_lines to_int show (splitlines text))
        (bump_lines-IsRevision (splitlines text))
