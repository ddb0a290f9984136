-- ===== src/Prelude/Sort.antt =====
-- Python's `sorted`: a stable sort. Texts compare by code points.
use Prim.Native.Char.{code}
use Prim.Native.String.{String}
use mathlib.Core.Path.{◌≡◌, refl}
use mathlib.Core.Logic.{◌⊎◌, inl, inr, ◌↔◌}
use mathlib.Core.Bool.{Bool, true, false}
use mathlib.Core.List.{List, [], ◌∷◌}
use native.Mathlib.Omega.{arith}
use dexpi_datalog.Prelude.Tests.{ltb, nat_beq, if◌then◌else◌}
use dexpi_datalog.Prelude.Lists.{In}

-- s <= t
unfoldable pub text_le : String → String → Bool
text_le String.[] t = true
text_le (String.◌∷◌ c s) String.[] = false
text_le (String.◌∷◌ c s) (String.◌∷◌ d t) =
    let rest = text_le s t in
    if ltb (code c) (code d) then true else if nat_beq (code c) (code d) then rest else false

pub text_le_total : (s t : String) → (text_le s t ≡ true) ⊎ (text_le t s ≡ true)
unfolding text_le
text_le_total String.[] t = inl refl
text_le_total (String.◌∷◌ c s) String.[] = inr refl
text_le_total (String.◌∷◌ c s) (String.◌∷◌ d t) = ground (arith, text_le_total s t)

-- xs <= ys for lists of texts, such as key tuples
unfoldable pub texts_le : List String → List String → Bool
unfolding text_le
texts_le [] ys = true
texts_le (x ∷ xs) [] = false
texts_le (x ∷ xs) (y ∷ ys) =
    let rest = texts_le xs ys in if text_le x y then (if text_le y x then rest else true) else false

module _ {A : Type 0} (le : A → A → Bool) where
  -- before the first entry that is strictly greater
  unfoldable pub insert : A → List A → List A
  insert x [] = x ∷ []
  insert x (y ∷ ys) = if le x y then x ∷ y ∷ ys else y ∷ insert x ys

  unfoldable pub sort : List A → List A
  unfolding insert
  sort [] = []
  sort (x ∷ xs) = insert x (sort xs)

  pub In-insert : (a x : A) (ys : List A) → In a (insert x ys) ↔ ((a ≡ x) ⊎ In a ys)
  unfolding insert
  In-insert a x [] = (λ h. h, λ h. h)
  In-insert a x (y ∷ ys) = ground (arith, In-insert a x ys)

  -- Sorting neither adds nor drops an entry.
  pub In-sort : (a : A) (xs : List A) → In a (sort xs) ↔ In a xs
  unfolding sort
  In-sort a [] = (λ h. h, λ h. h)
  In-sort a (x ∷ xs) = ground (arith, In-insert a x (sort xs), In-sort a xs)
