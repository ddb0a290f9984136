-- ===== src/Benchmark/Results/Fractions.antt =====
-- The exact fractions of the score in benchmark/results.py: (plus - minus) / over.
use native.Mathlib.Nat.{mul-le-mul_right, le_of_mul-le-mul_right}
use dexpi_datalog.Prelude.{
  ℕ, ◌+◌, ◌*◌, ◌≤◌, ◌<◌, ◌≡◌, ◌↔◌, ◌⊎◌, inl, inr, Bool, true, List, [], ◌∷◌, leb, All, Bool-cases,
  arith, if◌then◌else◌,
}

pub record Fraction : Type 0 where
  pub plus : ℕ
  pub minus : ℕ
  pub over : ℕ

-- a <= b, where both denominators are positive
unfoldable pub at_most : Fraction → Fraction → Bool
at_most a b = leb (a.plus * b.over + b.minus * a.over) (b.plus * a.over + a.minus * b.over)

-- a + b
unfoldable pub add : Fraction → Fraction → Fraction
add a b = record {
  plus = a.plus * b.over + b.plus * a.over;
  minus = a.minus * b.over + b.minus * a.over;
  over = a.over * b.over;
}

-- sum(fractions, a)
unfoldable pub sum : Fraction → List Fraction → Fraction
unfolding add
sum a [] = a
sum a (b ∷ bs) = sum (add a b) bs

abbrev pub smaller : Fraction → Fraction → Fraction
smaller a b = if at_most a b then a else b

-- min of a non-empty list of fractions
unfoldable pub least : Fraction → List Fraction → Fraction
unfolding at_most
least a [] = a
least a (b ∷ bs) = least (smaller a b) bs

-- The fraction is not negative.
abbrev pub IsClear : Fraction → Type 0
IsClear a = a.minus ≤ a.plus

abbrev pub IsFraction : Fraction → Type 0
IsFraction a = 0 < a.over

pub leb_le : (m n : ℕ) → leb m n ≡ true → m ≤ n
leb_le m n h = ground arith

pub at_most_total : (a b : Fraction) → (at_most a b ≡ true) ⊎ (at_most b a ≡ true)
unfolding at_most
at_most_total a b = ground arith

-- What is not less than a fraction that is not negative is not negative.
pub IsClear-upward : (a b : Fraction) → IsFraction a → at_most a b ≡ true → IsClear a → IsClear b
unfolding at_most
IsClear-upward a b fa h c =
    let scaled : a.minus * b.over ≤ a.plus * b.over = mul-le-mul_right b.over c in
    let cross = leb_le _ _ h in
    le_of_mul-le-mul_right {k = a.over} (omega (arith, scaled, cross)) fa

pub smaller-IsFraction : (a b : Fraction) → IsFraction a → IsFraction b → IsFraction (smaller a b)
smaller-IsFraction a b fa fb = elim (Bool-cases (at_most a b)) [ inl e ↦ rw e fa | inr n ↦ rw n fb ]

smaller_positive_iff :
    (a b : Fraction) → IsFraction a → IsFraction b → IsClear (smaller a b) ↔ (IsClear a × IsClear b)
smaller_positive_iff a b fa fb = elim (Bool-cases (at_most a b)) [
  | inl e ↦ rw e (λ h. (h, IsClear-upward a b fa e h), λ h. h.0)
  | inr n ↦
      let other : at_most b a ≡ true = ground (arith, at_most_total a b, n) in
      rw n (λ h. (IsClear-upward b a fb other h, h), λ h. h.1)
]

-- The least of some fractions is not negative exactly where none of them is.
pub least_positive_iff :
    (a : Fraction) (bs : List Fraction)
    → IsFraction a
    → All IsFraction bs
    → IsClear (least a bs) ↔ (IsClear a × All IsClear bs)
unfolding least
least_positive_iff a [] fa fs = (λ h. (h, tt), λ h. h.0)
least_positive_iff a (b ∷ bs) fa fs =
    let rest = least_positive_iff (smaller a b) bs (smaller-IsFraction a b fa fs.0) fs.1 in
    let head = smaller_positive_iff a b fa fs.0 in
    (
      λ h. let c = rest.0 h in let d = head.0 c.0 in (d.0, (d.1, c.1)),
      λ h. rest.1 (head.1 (h.0, h.1.0), h.1.1),
    )

pub least-IsFraction :
    (a : Fraction) (bs : List Fraction) → IsFraction a → All IsFraction bs → IsFraction (least a bs)
unfolding least
least-IsFraction a [] fa fs = fa
least-IsFraction a (b ∷ bs) fa fs =
    least-IsFraction (smaller a b) bs (smaller-IsFraction a b fa fs.0) fs.1
