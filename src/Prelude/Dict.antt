-- ===== src/Prelude/Dict.antt =====
-- Python's `dict`: an association list in insertion order. Assignment to a key that is there
-- keeps its place.
use mathlib.Core.Path.{◌≡◌, refl, sym, ap, ◌∙◌}
use mathlib.Core.Option.{Option, none, some}
use mathlib.Core.List.{List, [], ◌∷◌}
use native.Mathlib.Omega.{arith}
use mathlib.Core.Logic.{inl, inr}
use mathlib.Core.Bool.{false}
use dexpi_datalog.Prelude.Tests.{HasEq, ◌==◌, Bool-cases, if◌then◌else◌}
use dexpi_datalog.Prelude.Lists.{In}

abbrev pub Dict {ℓ κ} : Type ℓ → Type κ → Type (ℓ ⊔ κ)
Dict K V = List (K × V)

module _ {ℓ κ} {K : Type ℓ} {V : Type κ} ⦃e : HasEq K⦄ where
  -- d.get(k)
  unfoldable pub get : K → Dict K V → Option V
  get k [] = none
  get k ((j, v) ∷ d) = if j == k then some v else get k d

  -- d[k] = v
  unfoldable pub put : K → V → Dict K V → Dict K V
  put k v [] = (k, v) ∷ []
  put k v ((j, w) ∷ d) = if j == k then (j, v) ∷ d else (j, w) ∷ put k v d

  -- d.pop(k, None)
  unfoldable pub remove : K → Dict K V → Dict K V
  remove k [] = []
  remove k ((j, w) ∷ d) = let rest = remove k d in if j == k then rest else (j, w) ∷ rest

  pub get-put :
      (k j : K) (v : V) (d : Dict K V) → get j (put k v d) ≡ (if k == j then some v else get j d)
  unfolding get put
  get-put k j v [] = refl
  get-put k j v ((i, w) ∷ d) =
      ground (arith, e.equals_iff k j, e.equals_iff i k, e.equals_iff i j, get-put k j v d)

  pub get-remove :
      (k j : K) (d : Dict K V) → get j (remove k d) ≡ (if k == j then none else get j d)
  unfolding get remove
  get-remove k j [] = ground arith
  get-remove k j ((i, w) ∷ d) =
      ground (arith, e.equals_iff k j, e.equals_iff i k, e.equals_iff i j, get-remove k j d)

no_entry : {V X : Type 0} (v : V) → none ≡ some v → X
no_entry v h = cc

module _ {K V : Type 0} ⦃e : HasEq K⦄ where
  -- No key is there twice.
  abbrev pub IsKeyed : Dict K V → Type 0
  IsKeyed [] = Unit
  IsKeyed ((k, v) ∷ d) = (get k d ≡ none) × IsKeyed d

  pub In-get : (k : K) (v : V) (d : Dict K V) → get k d ≡ some v → In (k, v) d
  unfolding get
  In-get k v [] h = cc
  In-get k v ((j, w) ∷ d) h = elim (Bool-cases (j == k)) [
    | inl y ↦ inl (ground (arith, (e.equals_iff j k).0 y, h, y))
    | inr n ↦ inr (In-get k v d (rw n at h))
  ]

  pub put-IsKeyed : (k : K) (v : V) (d : Dict K V) → IsKeyed d → IsKeyed (put k v d)
  unfolding put get
  put-IsKeyed k v [] h = (refl, tt)
  put-IsKeyed k v ((j, w) ∷ d) h = elim (Bool-cases (j == k)) [
    | inl y ↦ rw y h
    | inr n ↦
        let other : (k == j) ≡ false = ground (arith, e.equals_iff j k, e.equals_iff k j, n) in
        rw n (get-put k j v d ∙ rw other h.0, put-IsKeyed k v d h.1)
  ]

  pub get-In : (k : K) (v : V) (d : Dict K V) → IsKeyed d → In (k, v) d → get k d ≡ some v
  unfolding get
  get-In k v [] h m = absurd m
  get-In k v ((j, w) ∷ d) h (inl at) =
      let key : k ≡ j = ap (λ (p : K × V). p.0) at in
      let val : v ≡ w = ap (λ (p : K × V). p.1) at in
      rw ((e.equals_iff j k).1 (sym key)) (ap some (sym val))
  get-In k v ((j, w) ∷ d) h (inr m) =
      let there = get-In k v d h.1 m in
      elim (Bool-cases (j == k)) [
        | inl y ↦
            let key : j ≡ k = (e.equals_iff j k).0 y in
            let gone : get k d ≡ none = rw key at h.0 in no_entry v (sym gone ∙ there)
        | inr n ↦ rw n there
      ]
