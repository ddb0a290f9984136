-- ===== src/Prelude/Sets.antt =====
-- Python's sets of texts: the distinct members of lists, and their sizes.
use Prim.Native.Nat.{suc, ◌≤◌}
use Prim.Native.String.{String}
use text.Mathlib.TextEquality.{eq_iff}
use mathlib.Core.Path.{◌≡◌, refl, sym, ap, ◌∙◌}
use mathlib.Core.Logic.{inl, inr, ◌↔◌}
use mathlib.Core.Bool.{Bool, true, false, not}
use mathlib.Core.List.{List, [], ◌∷◌}
use native.Mathlib.Omega.{arith}
use dexpi_datalog.Prelude.Tests.{contains, ◌==◌, string_eq, Bool-cases, if◌then◌else◌}
use dexpi_datalog.Prelude.Lists.{length, keep, In}
use dexpi_datalog.Prelude.Sort.{insert, sort, In-insert, In-sort}

-- set(xs), in some order
unfoldable pub distinct : List String → List String
distinct [] = []
distinct (x ∷ xs) = let rest = distinct xs in if contains rest x then rest else x ∷ rest

-- xs & ys
abbrev pub meet : List String → List String → List String
meet xs ys = keep (contains ys) xs

-- xs - ys
abbrev pub minus : List String → List String → List String
minus xs ys = keep (λ x. not (contains ys x)) xs

pub contains_iff : (xs : List String) (x : String) → (contains xs x ≡ true) ↔ In x xs
contains_iff [] x = (λ h. cc, λ m. absurd m)
contains_iff (y ∷ xs) x = ground (arith, eq_iff y x, contains_iff xs x)

differ : {X : Type 0} {b : Bool} → b ≡ false → b ≡ true → X
differ h k = cc

-- A member that is not in the list is not contained.
pub not_in : (xs : List String) (x : String) → (In x xs → ⊥) → contains xs x ≡ false
not_in xs x h = elim (Bool-cases (contains xs x)) [
  | inl y ↦ absurd (h ((contains_iff xs x).0 y))
  | inr n ↦ n
]

pub In-keep :
    (p : String → Bool) (xs : List String) (x : String)
    → In x (keep p xs) ↔ (In x xs × (p x ≡ true))
In-keep p [] x = (λ m. absurd m, λ h. absurd h.0)
In-keep p (y ∷ xs) x = ground (arith, In-keep p xs x)

pub In-distinct : (xs : List String) (x : String) → In x (distinct xs) ↔ In x xs
unfolding distinct
In-distinct [] x = (λ m. m, λ m. m)
In-distinct (y ∷ xs) x =
    ground (arith, contains_iff (distinct xs) y, In-distinct xs x, In-distinct xs y)

-- No member is there twice.
abbrev pub IsDistinct : List String → Type 0
IsDistinct [] = Unit
IsDistinct (x ∷ xs) = (contains xs x ≡ false) × IsDistinct xs

pub distinct-IsDistinct : (xs : List String) → IsDistinct (distinct xs)
unfolding distinct
distinct-IsDistinct [] = tt
distinct-IsDistinct (x ∷ xs) = elim (Bool-cases (contains (distinct xs) x)) [
  | inl y ↦ rw y (distinct-IsDistinct xs)
  | inr n ↦ rw n (n, distinct-IsDistinct xs)
]

length-keep-le : (p : String → Bool) (xs : List String) → length (keep p xs) ≤ length xs
length-keep-le p [] = omega arith
length-keep-le p (x ∷ xs) = ground (arith, length-keep-le p xs)

keep-IsDistinct : (p : String → Bool) (xs : List String) → IsDistinct xs → IsDistinct (keep p xs)
keep-IsDistinct p [] h = tt
keep-IsDistinct p (x ∷ xs) h = elim (Bool-cases (p x)) [
  | inr n ↦ rw n (keep-IsDistinct p xs h.1)
  | inl y ↦ rw y (
    not_in (keep p xs) x (λ m. differ h.0 ((contains_iff xs x).1 ((In-keep p xs x).0 m).0)),
    keep-IsDistinct p xs h.1,
  )
]

-- the list without the first entry that is x
without : String → List String → List String
without x [] = []
without x (y ∷ ys) = let rest = without x ys in if y == x then ys else y ∷ rest

length-without : (x : String) (ys : List String) → In x ys → suc (length (without x ys)) ≡ length ys
unfolding without
length-without x [] m = absurd m
length-without x (y ∷ ys) m = elim (Bool-cases (y == x)) [
  | inl e ↦ rw e
  | inr n ↦ elim m [
    | inl at ↦ differ n ((eq_iff y x).1 (sym at))
    | inr k ↦ rw n (ap suc (length-without x ys k))
  ]
]

In-without : (x a : String) (ys : List String) → In a ys → (a == x) ≡ false → In a (without x ys)
unfolding without
In-without x a [] m n = absurd m
In-without x a (y ∷ ys) m n = elim (Bool-cases (y == x)) [
  | inl e ↦ elim m [ inl at ↦ differ n ((eq_iff a x).1 (at ∙ (eq_iff y x).0 e)) | inr k ↦ rw e k ]
  | inr d ↦ rw d (elim m [ inl at ↦ inl at | inr k ↦ inr (In-without x a ys k n) ])
]

abbrev pub IsSubset : List String → List String → Type 0
IsSubset xs ys = (a : String) → In a xs → In a ys

-- A set is at most as large as one that contains it.
pub length_subset : (xs ys : List String) → IsDistinct xs → IsSubset xs ys → length xs ≤ length ys
length_subset [] ys d h = omega arith
length_subset (x ∷ xs) ys d h =
    let there = h x (inl refl) in
    let other : (a : String) → In a xs → (a == x) ≡ false = λ a m. elim (Bool-cases (a == x)) [
      | inl e ↦ differ d.0 ((contains_iff xs x).1 (rw ((eq_iff a x).0 e) at m))
      | inr n ↦ n
    ] in
    let rest =
      length_subset xs (without x ys) d.1 (λ a m. In-without x a ys (h a (inr m)) (other a m)) in
    omega (arith, rest, length-without x ys there)

-- Where keeping drops nothing of the length, it drops no entry.
keep_all :
    (p : String → Bool) (xs : List String)
    → length xs ≤ length (keep p xs)
    → (a : String) → In a xs
    → p a ≡ true
keep_all p [] h a m = absurd m
keep_all p (x ∷ xs) h a m = elim (Bool-cases (p x)) [
  | inr n ↦
      let le = length-keep-le p xs in
      let bad : suc (length xs) ≤ length (keep p xs) = rw n at h in absurd (omega (arith, le, bad))
  | inl y ↦
      let rest : suc (length xs) ≤ suc (length (keep p xs)) = rw y at h in
      elim m [ inl at ↦ rw at y | inr k ↦ keep_all p xs (omega (arith, rest)) a k ]
]

-- The same members, in any order and number.
abbrev pub SameMembers : List String → List String → Type 0
SameMembers xs ys = (a : String) → In a xs ↔ In a ys

module _ (xs ys : List String) where
  In-meet : (a : String) → In a (meet xs ys) ↔ (In a xs × In a ys)
  In-meet a =
      let k = In-keep (contains ys) xs a in
      let c = contains_iff ys a in (λ m. let (i, q) = k.0 m in (i, c.0 q), λ (i, j). k.1 (i, c.1 j))

  pub length-meet-left : length (meet xs ys) ≤ length xs
  length-meet-left = length-keep-le (contains ys) xs

  pub length-meet-right : IsDistinct xs → length (meet xs ys) ≤ length ys
  length-meet-right d =
      length_subset (meet xs ys) ys (keep-IsDistinct (contains ys) xs d)
        (λ a m. ((In-meet a).0 m).1)

-- Two sets have the same members exactly where their intersection has the size of both.
pub SameMembers-meet :
    (xs ys : List String)
    → IsDistinct xs
    → IsDistinct ys
    → SameMembers xs ys ↔ ((length xs ≤ length (meet xs ys)) × (length ys ≤ length (meet xs ys)))
SameMembers-meet xs ys dx dy = (
  λ h. (
    length_subset xs (meet xs ys) dx (λ a m. (In-meet xs ys a).1 (m, (h a).0 m)),
    length_subset ys (meet xs ys) dy (λ a m. (In-meet xs ys a).1 ((h a).1 m, m)),
  ),
  λ h a. (
    λ m. (contains_iff ys a).0 (keep_all (contains ys) xs h.0 a m),
    λ m.
        let turned =
          length_subset (meet xs ys) (meet ys xs) (keep-IsDistinct (contains ys) xs dx)
            (λ b k. let (i, j) = (In-meet xs ys b).0 k in (In-meet ys xs b).1 (j, i)) in
        (contains_iff xs a).0 (keep_all (contains xs) ys (omega (arith, turned, h.1)) a m),
  ),
)

-- A list and its set have the same members.
pub same_iff : (xs ys : List String) → SameMembers (distinct xs) (distinct ys) ↔ SameMembers xs ys
same_iff xs ys =
    let x = In-distinct xs in
    let y = In-distinct ys in
    (
      λ h a. (λ i. (y a).0 ((h a).0 ((x a).1 i)), λ i. (x a).0 ((h a).1 ((y a).1 i))),
      λ h a. (λ i. (y a).1 ((h a).0 ((x a).0 i)), λ i. (x a).1 ((h a).1 ((y a).0 i))),
    )

length-distinct-le : (xs : List String) → length (distinct xs) ≤ length xs
unfolding distinct
length-distinct-le [] = omega arith
length-distinct-le (x ∷ xs) = ground (arith, length-distinct-le xs)

-- A list whose set is as long as it has no member twice.
pub length-IsDistinct : (xs : List String) → length (distinct xs) ≡ length xs → IsDistinct xs
unfolding distinct
length-IsDistinct [] h = tt
length-IsDistinct (x ∷ xs) h = elim (Bool-cases (contains (distinct xs) x)) [
  | inl y ↦
      let shorter = length-distinct-le xs in
      let same : length (distinct xs) ≡ suc (length xs) = rw y at h in
      absurd (omega (arith, shorter, same))
  | inr n ↦
      let same : suc (length (distinct xs)) ≡ suc (length xs) = rw n at h in
      (
        not_in xs x (λ m. differ n ((contains_iff (distinct xs) x).1 ((In-distinct xs x).1 m))),
        length-IsDistinct xs (omega (arith, same)),
      )
]

-- The set of a list without doubles is the list.
pub distinct_same : (xs : List String) → IsDistinct xs → distinct xs ≡ xs
unfolding distinct
distinct_same [] h = refl
distinct_same (x ∷ xs) h =
    let none_there : contains (distinct xs) x ≡ false =
      not_in (distinct xs) x (λ m. differ h.0 ((contains_iff xs x).1 ((In-distinct xs x).0 m))) in
    rw none_there (ap (λ (l : List String). x ∷ l) (distinct_same xs h.1))

insert-IsDistinct :
    (le : String → String → Bool) (x : String) (ys : List String)
    → contains ys x ≡ false
    → IsDistinct ys
    → IsDistinct (insert le x ys)
unfolding insert
insert-IsDistinct le x [] h d = (refl, tt)
insert-IsDistinct le x (y ∷ ys) h d = elim (Bool-cases (le x y)) [
  | inl e ↦ rw e (h, d)
  | inr n ↦
      let out : In x (y ∷ ys) → ⊥ = λ m. differ h ((contains_iff (y ∷ ys) x).1 m) in
      rw n (
        not_in (insert le x ys) y λ m. elim ((In-insert le y x ys).0 m) [
          | inl at ↦ out (inl (sym at))
          | inr k ↦ differ d.0 ((contains_iff ys y).1 k)
        ],
        insert-IsDistinct le x ys (not_in ys x (λ m. out (inr m))) d.1,
      )
]

pub sort-IsDistinct :
    (le : String → String → Bool) (xs : List String) → IsDistinct xs → IsDistinct (sort le xs)
unfolding sort
sort-IsDistinct le [] d = tt
sort-IsDistinct le (x ∷ xs) d =
    insert-IsDistinct le x (sort le xs)
      (not_in (sort le xs) x (λ m. differ d.0 ((contains_iff xs x).1 ((In-sort le x xs).0 m))))
      (sort-IsDistinct le xs d.1)
