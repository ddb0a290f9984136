-- ===== src/Direction/Agree.antt =====
-- The basis of a direction is the same in the review helpers and in the traversal, and reversing
-- a review is reversing the direction.
use text.Mathlib.TextEquality.{eq_iff}
use dexpi_datalog.Prelude.{
  String, ◌≡◌, refl, sym, inl, inr, List, [], ◌∷◌, ◌==◌, string_eq, contains, all_of, Bool-cases,
}
use dexpi_datalog.Topology.Facts
use dexpi_datalog.Topology.Facts.{Basis, explicit, inferred, unknown}
use dexpi_datalog.Direction.{
  directed_relationships, classify_edge_direction_basis, all_explicit,
  classify_path_direction_basis, opposite_direction, effective_direction,
}

-- the name of a basis in the results
abbrev pub basis_name : Basis → String
basis_name explicit = "explicit"
basis_name inferred = "inferred"
basis_name unknown = "unknown"

all_explicit-all_of :
    (rs : List String) → all_explicit rs ≡ all_of (contains directed_relationships) rs
unfolding classify_edge_direction_basis
all_explicit-all_of [] = refl
all_explicit-all_of (r ∷ rs) = elim (Bool-cases (contains directed_relationships r)) [
  | inl e ↦ rw e (all_explicit-all_of rs)
  | inr n ↦ rw n
]

-- The two definitions of the direction basis of a path, that of the traversal and that of the
-- review of inferred directions, give every path the same basis.
pub classify_path_direction_basis_agrees :
    (rs : List String)
    → classify_path_direction_basis rs ≡ basis_name (Facts.classify_path_direction_basis rs)
unfolding classify_path_direction_basis Facts.classify_path_direction_basis
classify_path_direction_basis_agrees [] = refl
classify_path_direction_basis_agrees (r ∷ rs) =
    elim (Bool-cases (all_of (contains directed_relationships) (r ∷ rs))) [
      | inl e ↦ rw (all_explicit-all_of (r ∷ rs)) (rw e)
      | inr n ↦ rw (all_explicit-all_of (r ∷ rs)) (rw n)
    ]

opposite_opposite : (d : String) → opposite_direction (opposite_direction d) ≡ d
unfolding opposite_direction
opposite_opposite d = elim (Bool-cases (d == "downstream")) [
  | inl e ↦ rw e (sym ((eq_iff d "downstream").0 e))
  | inr n ↦ elim (Bool-cases (d == "upstream")) [
    | inl e ↦ rw (n, e) (sym ((eq_iff d "upstream").0 e))
    | inr m ↦ rw (n, m) (rw (n, m))
  ]
]

-- Reversing a proposed direction is confirming its opposite, and reversing the opposite gives the
-- proposed direction back.
effective_direction_reversed :
    (proposed : String)
    → (effective_direction proposed "reversed"
        ≡ effective_direction (opposite_direction proposed) "confirmed")
      × (effective_direction (opposite_direction proposed) "reversed" ≡ proposed)
unfolding effective_direction
effective_direction_reversed proposed = (refl, opposite_opposite proposed)
