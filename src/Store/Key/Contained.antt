-- ===== src/Store/Key/Contained.antt =====
-- Where an accepted key leads, by an independent reading of paths.
use mathlib.Core.List.{append-nil, append_assoc}
use dexpi_datalog.Prelude.{
  String, ◌≡◌, ◌≢◌, sym, false, not, ◌&&◌, some, List, [], ◌∷◌, ◌++◌, arith, ◌==◌, string_eq,
  contains, keep, if◌then◌else◌,
}
use dexpi_datalog.Store.Key.{split_slash, validate_key}

-- The parent of a path; the root's is the root.
parent : List String → List String
parent [] = []
parent (x ∷ []) = []
parent (x ∷ y ∷ xs) = x ∷ parent (y ∷ xs)

-- One segment, as a file system reads it: an empty or `.` segment stays, `..` goes to the parent.
enter : List String → String → List String
unfolding parent
enter at p =
    if p == "" then at else if p == "." then at else if p == ".." then parent at else at ++ p ∷ []

-- Where the segments lead from `at`.
pub walk : List String → List String → List String
unfolding enter
walk at [] = at
walk at (p ∷ ps) = walk (enter at p) ps

abbrev kept : List String → List String
kept = keep (λ p. not (p == "") && not (p == "."))

walk-kept : (at ps : List String) → contains (kept ps) ".." ≡ false → walk at ps ≡ at ++ kept ps
unfolding walk
walk-kept at [] h = sym (append-nil at)
walk-kept at (p ∷ ps) h =
    ground (arith, walk-kept at ps, walk-kept (at ++ p ∷ []) ps, append_assoc at (p ∷ []) (kept ps))

-- An accepted key is not empty, and a file system that walks its text segment by segment from the
-- root ends strictly below the root, at the very path that the store uses.
pub validate_key-contained :
    (key : String) (root parts : List String)
    → validate_key key ≡ some parts
    → (parts ≢ []) × (walk root (split_slash key) ≡ root ++ parts)
unfolding validate_key
validate_key-contained key root parts h = ground (arith, walk-kept root (split_slash key))
