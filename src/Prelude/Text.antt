-- ===== src/Prelude/Text.antt =====
-- Text, character by character: the string methods that the program calls.
use Prim.Native.Nat.{ℕ, zero, suc, ◌≤◌}
use Prim.Native.Char.{Char, code}
use Prim.Native.String.{String}
use Prim.Native.String.{◌++◌ as str_append}
use mathlib.Core.Path.{◌≡◌, refl}
use mathlib.Core.Bool.{Bool, true, false, ◌||◌, ◌&&◌}
use mathlib.Core.List.{List, [], ◌∷◌}
use native.Mathlib.Omega.{arith}
use dexpi_datalog.Prelude.Tests.{leb, nat_beq, if◌then◌else◌}

infixr 66 ◌⊕◌
-- `s + t` on texts
abbrev pub ◌⊕◌ : String → String → String
s ⊕ t = str_append s t

abbrev pub char_beq : Char → Char → Bool
char_beq c d = nat_beq (code c) (code d)

-- len(s)
abbrev pub len : String → ℕ
len String.[] = 0
len (String.◌∷◌ c s) = suc (len s)

-- s[:n]
unfoldable pub slice_to : ℕ → String → String
slice_to zero s = String.[]
slice_to (suc n) String.[] = String.[]
slice_to (suc n) (String.◌∷◌ c s) = String.◌∷◌ c (slice_to n s)

-- s.startswith(p)
unfoldable pub starts_with : String → String → Bool
starts_with s String.[] = true
starts_with String.[] (String.◌∷◌ d p) = false
starts_with (String.◌∷◌ c s) (String.◌∷◌ d p) = char_beq c d && starts_with s p

-- `p in s`
unfoldable pub occurs : String → String → Bool
unfolding starts_with
occurs p String.[] = starts_with String.[] p
occurs p (String.◌∷◌ c s) = starts_with (String.◌∷◌ c s) p || occurs p s

-- sep.join(xs)
unfoldable pub join : String → List String → String
join sep [] = ""
join sep (x ∷ []) = x
join sep (x ∷ y ∷ xs) = x ⊕ (sep ⊕ join sep (y ∷ xs))

-- str.isspace() of one character
abbrev pub is_space : Char → Bool
is_space c =
    let n = code c in
    (leb 9 n && leb n 13)
    || (leb 28 n && leb n 32)
    || nat_beq n 133
    || nat_beq n 160
    || nat_beq n 5760
    || (leb 8192 n && leb n 8202)
    || nat_beq n 8232
    || nat_beq n 8233
    || nat_beq n 8239
    || nat_beq n 8287
    || nat_beq n 12288

-- s.strip() == ""
unfoldable pub is_blank : String → Bool
is_blank String.[] = true
is_blank (String.◌∷◌ c s) = is_space c && is_blank s

-- s.lstrip()
unfoldable pub lstrip : String → String
lstrip String.[] = String.[]
lstrip (String.◌∷◌ c s) = let rest = lstrip s in if is_space c then rest else String.◌∷◌ c s

-- s.rstrip()
unfoldable pub rstrip : String → String
unfolding is_blank
rstrip String.[] = String.[]
rstrip (String.◌∷◌ c s) =
    let rest = String.◌∷◌ c (rstrip s) in if is_blank (String.◌∷◌ c s) then String.[] else rest

-- s.strip()
unfoldable pub strip : String → String
unfolding lstrip rstrip
strip s = rstrip (lstrip s)

pub len-slice_to : (n : ℕ) (s : String) → len (slice_to n s) ≤ n
unfolding slice_to
len-slice_to zero s = omega arith
len-slice_to (suc n) String.[] = omega arith
len-slice_to (suc n) (String.◌∷◌ c s) = omega (arith, len-slice_to n s)

strip_runs : strip " a b " ≡ "a b"
unfolding strip
strip_runs = refl

occurs_runs : occurs "key" "api_key_x" ≡ true
unfolding occurs
occurs_runs = refl

pub slice_to_all : (n : ℕ) (s : String) → len s ≤ n → slice_to n s ≡ s
unfolding slice_to
slice_to_all zero String.[] h = refl
slice_to_all zero (String.◌∷◌ c s) h = absurd (omega arith)
slice_to_all (suc n) String.[] h = refl
slice_to_all (suc n) (String.◌∷◌ c s) h = rw (slice_to_all n s (omega arith))
