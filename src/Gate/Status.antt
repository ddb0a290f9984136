-- ===== src/Gate/Status.antt =====
-- The status of the gate by the statuses of its layers.
use dexpi_datalog.Prelude.{
  ◌≡◌, refl, ◌↔◌, inl, inr, Bool, true, false, ◌&&◌, ◌||◌, Option, none, some, [], ◌∷◌, arith,
  string_eq, Bool-cases,
}
use dexpi_datalog.Json
use dexpi_datalog.Json.{Json, null, str, arr, obj, bool, int, Items, nil, cons, Fields, end, field}
use dexpi_datalog.Gate.Layers.{
  is_nil, has_status, value_at, in_set, both, mechanical_layer, semantic_layer,
  counterfactual_layer, counterfactual_verdict,
}
use dexpi_datalog.Gate.Evaluate.{gate_passed, gate_of}

abbrev pub tested : (Fields → Bool) → Option Fields → Bool
tested t none = false
tested t (some l) = t l

-- The gate answers, and its status is `passed`.
abbrev pub is_passing : Option Fields → Bool
is_passing = tested (has_status "passed")

-- a status of the review's layer that lets the gate pass
abbrev pub accepted : Fields → Bool
accepted l = has_status "passed" l || has_status "not_applicable" l

pub mechanical-status :
    (v : Fields) → has_status "passed" (mechanical_layer v) ≡ has_status "safe_to_confirm" v
unfolding mechanical_layer Json.get
mechanical-status v = elim (Bool-cases (has_status "safe_to_confirm" v)) [
  | inl e ↦ rw e
  | inr e ↦ rw e
]

pub semantic-status :
    (r e : Option Fields) (ds : Items)
    → has_status "passed" (semantic_layer r e ds) ≡ (both r e && is_nil ds)
unfolding semantic_layer Json.get
semantic-status r e ds = elim (Bool-cases (both r e && is_nil ds)) [ inl e ↦ rw e | inr e ↦ rw e ]

-- A replay that passed, or had nothing to replay.
abbrev pub IsReplayed : Option Fields → Type 0
IsReplayed none = ⊥
IsReplayed (some v) = in_set (value_at "status" v) ("passed" ∷ "not_applicable" ∷ []) ≡ some true

verdict-status :
    (v : Fields) (b : Option Bool) → is_passing (counterfactual_verdict v b) ≡ true → b ≡ some true
unfolding Json.get
verdict-status v none h = cc
verdict-status v (some false) h = cc
verdict-status v (some true) h = refl

pub counterfactual-status :
    (o : Option Fields) → (is_passing (counterfactual_layer o) ≡ true) ↔ IsReplayed o
unfolding counterfactual_layer Json.get
counterfactual-status none = (λ h. cc, λ h. absurd h)
counterfactual-status (some v) = (λ h. verdict-status v _ h, λ e. rw e)

pub gate-status :
    (cmp : Fields → Json → Option Fields × Items) (m s : Fields) (c l : Option Fields)
    → is_passing (gate_of cmp m s c l)
      ≡ (has_status "passed" m && has_status "passed" s && is_passing c && tested accepted l)
unfolding Json.get
gate-status cmp m s none none = ground arith
gate-status cmp m s none (some l) = ground arith
gate-status cmp m s (some c) none = ground arith
gate-status cmp m s (some c) (some l) = elim (Bool-cases (gate_passed cmp m s c l)) [
  | inl e ↦ rw e
  | inr e ↦ rw e
]
