-- ===== src/Prelude/Strip.antt =====
-- `str.strip` a second time changes nothing.
use Prim.Native.String.{String}
use mathlib.Core.Path.{◌≡◌, refl, ap, ◌∙◌}
use mathlib.Core.Logic.{inl, inr}
use mathlib.Core.Bool.{false, ◌&&◌}
use dexpi_datalog.Prelude.Tests.{Bool-cases}
use dexpi_datalog.Prelude.Text.{is_space, is_blank, lstrip, rstrip, strip}

blank-rstrip : (s : String) → is_blank (rstrip s) ≡ is_blank s
unfolding rstrip is_blank
blank-rstrip String.[] = refl
blank-rstrip (String.◌∷◌ c s) = elim (Bool-cases (is_space c && is_blank s)) [
  | inl y ↦ rw y
  | inr n ↦ rw n (ap (λ b. is_space c && b) (blank-rstrip s) ∙ n)
]

rstrip_again : (s : String) → rstrip (rstrip s) ≡ rstrip s
unfolding rstrip is_blank
rstrip_again String.[] = refl
rstrip_again (String.◌∷◌ c s) = elim (Bool-cases (is_space c && is_blank s)) [
  | inl y ↦ rw y
  | inr n ↦
      let still : (is_space c && is_blank (rstrip s)) ≡ false =
        ap (λ b. is_space c && b) (blank-rstrip s) ∙ n in
      rw n (rw still (ap (String.◌∷◌ c) (rstrip_again s)))
]

-- A text that is empty or begins with no white space.
abbrev IsLeft : String → Type 0
IsLeft String.[] = Unit
IsLeft (String.◌∷◌ c s) = is_space c ≡ false

lstrip-IsLeft : (s : String) → IsLeft (lstrip s)
unfolding lstrip
lstrip-IsLeft String.[] = tt
lstrip-IsLeft (String.◌∷◌ c s) = elim (Bool-cases (is_space c)) [
  | inl y ↦ rw y (lstrip-IsLeft s)
  | inr n ↦ rw n n
]

lstrip-left : (s : String) → IsLeft s → lstrip s ≡ s
unfolding lstrip
lstrip-left String.[] h = refl
lstrip-left (String.◌∷◌ c s) h = rw h

rstrip-IsLeft : (s : String) → IsLeft s → IsLeft (rstrip s)
unfolding rstrip is_blank
rstrip-IsLeft String.[] h = tt
rstrip-IsLeft (String.◌∷◌ c s) h = elim (Bool-cases (is_space c && is_blank s)) [
  | inl y ↦ rw y tt
  | inr n ↦ rw n h
]

pub strip_again : (s : String) → strip (strip s) ≡ strip s
unfolding strip
strip_again s =
    ap rstrip (lstrip-left (rstrip (lstrip s)) (rstrip-IsLeft (lstrip s) (lstrip-IsLeft s)))
    ∙ rstrip_again (lstrip s)
