-- ===== src/Prelude/Ordered.antt =====
-- What `sorted` gives: a list in order, which sorting again does not change.
use mathlib.Core.Path.{◌≡◌, refl, ap, ◌∙◌}
use mathlib.Core.Logic.{◌⊎◌, inl, inr}
use mathlib.Core.Bool.{Bool, true}
use mathlib.Core.List.{List, [], ◌∷◌}
use native.Mathlib.Omega.{arith}
use dexpi_datalog.Prelude.Tests.{Bool-cases}
use dexpi_datalog.Prelude.Sort.{insert, sort}

module _ {A : Type 0} (le : A → A → Bool) where
  -- Each entry is at most the next.
  abbrev pub IsOrdered : List A → Type 0
  IsOrdered [] = Unit
  IsOrdered (x ∷ []) = Unit
  IsOrdered (x ∷ y ∷ ys) = (le x y ≡ true) × IsOrdered (y ∷ ys)

  tail-IsOrdered : (y : A) (ys : List A) → IsOrdered (y ∷ ys) → IsOrdered ys
  tail-IsOrdered y [] h = tt
  tail-IsOrdered y (z ∷ zs) h = h.1

  -- Sorting a list that is in order changes nothing.
  pub sort_ordered : (xs : List A) → IsOrdered xs → sort le xs ≡ xs
  unfolding sort insert
  sort_ordered [] h = refl
  sort_ordered (x ∷ []) h = refl
  sort_ordered (x ∷ y ∷ ys) h = ap (insert le x) (sort_ordered (y ∷ ys) h.1) ∙ rw (h.0, insert) refl

module _ {A : Type 0} (le : A → A → Bool)
    (total : (a b : A) → (le a b ≡ true) ⊎ (le b a ≡ true)) where
  cons-IsOrdered :
      (y x : A) (ys : List A)
      → le y x ≡ true
      → IsOrdered le (y ∷ ys)
      → IsOrdered le (insert le x ys)
      → IsOrdered le (y ∷ insert le x ys)
  unfolding insert
  cons-IsOrdered y x [] h o i = (h, tt)
  cons-IsOrdered y x (z ∷ zs) h o i = elim (Bool-cases (le x z)) [
    | inl e ↦ rw e (h, rw e at i)
    | inr n ↦ rw n (o.0, rw n at i)
  ]

  insert-IsOrdered : (x : A) (ys : List A) → IsOrdered le ys → IsOrdered le (insert le x ys)
  unfolding insert
  insert-IsOrdered x [] h = tt
  insert-IsOrdered x (y ∷ ys) h = elim (Bool-cases (le x y)) [
    | inl e ↦ rw e (e, h)
    | inr n ↦
        let back : le y x ≡ true = ground (arith, total x y, n) in
        rw n (cons-IsOrdered y x ys back h (insert-IsOrdered x ys (tail-IsOrdered le y ys h)))
  ]

  pub sort-IsOrdered : (xs : List A) → IsOrdered le (sort le xs)
  unfolding sort
  sort-IsOrdered [] = tt
  sort-IsOrdered (x ∷ xs) = insert-IsOrdered x (sort le xs) (sort-IsOrdered xs)
