-- ===== src/Promotion/Version.antt =====
-- verification/promote_advisory.py: the version in the metadata of a pack. int and str of a number are
-- parameters.
use dexpi_datalog.Prelude.{
  zero, suc, String, Option, none, some, List, [], ◌∷◌, ◌++◌, ◌==◌, string_eq, if◌then◌else◌,
}
use dexpi_datalog.Prelude.Text.{◌⊕◌, starts_with, strip, join}
use dexpi_datalog.Json.{ℤ, pos, negsuc}
use dexpi_datalog.Promotion.Lines.{splitlines, ends_line}

-- z + 1
abbrev pub next_version : ℤ → ℤ
next_version (pos n) = pos (suc n)
next_version (negsuc zero) = pos 0
next_version (negsuc (suc n)) = negsuc n

-- line.split(":", 1)[1]
unfoldable pub after_colon : String → String
after_colon String.[] = String.[]
after_colon (String.◌∷◌ c s) =
    let rest = after_colon s in if String.◌∷◌ c String.[] == ":" then s else rest

-- The lines before the first that strips to "---", and those from it on.
unfoldable pub split_closing : List String → Option (List String × List String)
unfolding strip
split_closing [] = none
split_closing (l ∷ ls) =
    let rest = split_closing ls in
    if strip l == "---"
    then some ([], l ∷ ls)
    else elim rest [ none ↦ none | some (meta, body) ↦ some (l ∷ meta, body) ]

module _ (to_int : String → Option ℤ) (show : ℤ → String) where
  abbrev current_version : Option ℤ → ℤ
  current_version (some z) = z
  current_version none = pos 1

  -- the line of the next version
  unfoldable pub bumped : String → String
  unfolding strip after_colon
  bumped line =
      "version: " ⊕ show (next_version (current_version (to_int (strip (after_colon line)))))

  -- The loop over the metadata.
  unfoldable pub bump_meta : List String → List String
  unfolding bumped starts_with
  bump_meta [] = []
  bump_meta (l ∷ ls) =
      let rest = bump_meta ls in if starts_with l "version:" then bumped l ∷ ls else l ∷ rest

  -- `_bump_frontmatter_version` on lines; `none` where the text stays as it is
  unfoldable pub bump_lines : List String → Option (List String)
  unfolding split_closing bump_meta strip
  bump_lines [] = none
  bump_lines (l ∷ ls) =
      if strip l == "---"
      then elim (split_closing ls) [
        | none ↦ none
        | some (meta, body) ↦ some (l ∷ (bump_meta meta ++ body))
      ]
      else none

  -- `_bump_frontmatter_version`
  unfoldable pub bump_frontmatter_version : String → String
  unfolding bump_lines splitlines ends_line join
  bump_frontmatter_version markdown = elim (bump_lines (splitlines markdown)) [
    | none ↦ markdown
    | some ls ↦ join "\n" ls ⊕ (if ends_line markdown then "\n" else "")
  ]
