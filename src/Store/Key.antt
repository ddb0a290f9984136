-- ===== src/Store/Key.antt =====
-- `validate_key` of workflow/artifact_store.py.
pub mod Contained
pub mod Beside
use Prim.Native.Char.{Char, code}
use dexpi_datalog.Prelude.{
  ℕ, String, ◌≡◌, ◌≢◌, refl, Bool, true, false, ◌||◌, Option, none, some, List, [], ◌∷◌, ◌++◌,
  arith, ◌==◌, string_eq, contains, keep, not, ◌&&◌, All, nat_beq, if◌then◌else◌,
}
use dexpi_datalog.Prelude.Text.{is_blank, starts_with}

pub push : Char → List String → List String
push c [] = String.◌∷◌ c String.[] ∷ []
push c (p ∷ ps) = String.◌∷◌ c p ∷ ps

-- key.split("/")
pub split_slash : String → List String
unfolding push
split_slash String.[] = String.[] ∷ []
split_slash (String.◌∷◌ c s) =
    let rest = split_slash s in if nat_beq (code c) b'/' then String.[] ∷ rest else push c rest

-- `PurePosixPath(key).parts` of a relative key: empty and `.` segments are dropped.
pub path_parts : String → List String
unfolding split_slash
path_parts key = keep (λ p. not (p == "") && not (p == ".")) (split_slash key)

pub non_empty : List String → Option (List String)
non_empty [] = none
non_empty (p ∷ ps) = some (p ∷ ps)

abbrev pub is_some : Option (List String) → Bool
is_some none = false
is_some (some _) = true

-- `none` is `InvalidArtifactKey`.
unfoldable pub validate_key : String → Option (List String)
unfolding non_empty path_parts is_blank starts_with
validate_key key =
    if is_blank key
    then none
    else if starts_with key "/" || starts_with key "\\"
    then none
    else let parts = path_parts key in if contains parts ".." then none else non_empty parts

validate_key_runs : validate_key "session-1/./a//b.json" ≡ some ("session-1" ∷ "a" ∷ "b.json" ∷ [])
unfolding validate_key
validate_key_runs = refl

validate_key_refuses :
    (validate_key "a/../b" ≡ none) × (validate_key "/etc" ≡ none) × (validate_key "." ≡ none)
unfolding validate_key
validate_key_refuses = (refl, refl, refl)
