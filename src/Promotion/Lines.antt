-- ===== src/Promotion/Lines.antt =====
-- The line methods of texts that verification/promote_advisory.py calls.
use dexpi_datalog.Prelude.{
  Bool, false, ◌&&◌, ◌||◌, String, List, [], ◌∷◌, leb, nat_beq, if◌then◌else◌, ◌≡◌, refl,
}
use Prim.Native.Char.{Char, code}

-- A character that ends a line for str.splitlines.
abbrev is_break : Char → Bool
is_break c =
    let n = code c in
    (leb 10 n && leb n 13)
    || (leb 28 n && leb n 30)
    || nat_beq n 133
    || nat_beq n 8232
    || nat_beq n 8233

abbrev onto_first : Char → List String → List String
onto_first c [] = String.◌∷◌ c String.[] ∷ []
onto_first c (l ∷ ls) = String.◌∷◌ c l ∷ ls

-- Whether the line break goes on: "\r\n" is one.
abbrev goes_on : Char → String → Bool
goes_on c String.[] = false
goes_on c (String.◌∷◌ d s) = nat_beq (code c) 13 && nat_beq (code d) 10

-- s.splitlines()
unfoldable pub splitlines : String → List String
splitlines String.[] = []
splitlines (String.◌∷◌ c s) =
    let rest = splitlines s in
    if is_break c then (if goes_on c s then rest else String.[] ∷ rest) else onto_first c rest

-- s.endswith("\n")
unfoldable pub ends_line : String → Bool
ends_line String.[] = false
ends_line (String.◌∷◌ c String.[]) = nat_beq (code c) 10
ends_line (String.◌∷◌ c (String.◌∷◌ d s)) = ends_line (String.◌∷◌ d s)

splitlines_runs : splitlines "a\r\nb\n\nc\n" ≡ "a" ∷ "b" ∷ "" ∷ "c" ∷ []
unfolding splitlines
splitlines_runs = refl
