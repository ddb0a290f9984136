-- ===== src/Gate/Layers.antt =====
-- The deterministic layers of qa/faithfulness_gate.py as the dicts that the code builds.
use dexpi_datalog.Prelude.{
  String, Bool, true, false, ◌&&◌, Option, none, some, List, [], ◌∷◌, ◌==◌, string_eq, contains,
  if◌then◌else◌,
}
use dexpi_datalog.Json
use dexpi_datalog.Json.{Json, null, str, arr, obj, Items, nil, cons, Fields, end, field}

-- {"code": code, "message": message}
abbrev pub diagnostic : String → String → Json
diagnostic code message = obj (field "code" (str code) (field "message" (str message) end))

-- `_diagnostics`
mappings : Items → Items
mappings nil = nil
mappings (cons (obj d) xs) = cons (obj d) (mappings xs)
mappings (cons _ xs) = mappings xs

pub diagnostics_of : Fields → Items
unfolding mappings
diagnostics_of d = elim (Json.get "diagnostics" d) [ some (arr xs) ↦ mappings xs | _ ↦ nil ]

abbrev pub is_nil : Items → Bool
is_nil nil = true
is_nil (cons x xs) = false

abbrev is_text : String → Option Json → Bool
is_text s (some (str t)) = t == s
is_text s _ = false

-- d.get("status") == s
abbrev pub has_status : String → Fields → Bool
has_status s d = is_text s (Json.get "status" d)

-- d.get(k)
unfoldable pub value_at : String → Fields → Json
value_at k d = elim (Json.get k d) [ none ↦ null | some v ↦ v ]

-- `v in {…}`, which hashes v: `none` is the TypeError for a list or a dict
abbrev pub in_set : Json → List String → Option Bool
in_set (str s) set = some (contains set s)
in_set (arr xs) set = none
in_set (obj d) set = none
in_set _ set = some false

abbrev pub verdict : Bool → Json
verdict passed = str (if passed then "passed" else "failed")

-- `_mechanical_layer`
unfoldable pub mechanical_layer : Fields → Fields
unfolding diagnostics_of
mechanical_layer validation =
    let passed = has_status "safe_to_confirm" validation in
    field "status" (verdict passed)
      (field "diagnostics" (arr (if passed then nil else diagnostics_of validation)) end)

abbrev pub both : Option Fields → Option Fields → Bool
both (some r) (some e) = true
both _ _ = false

abbrev incomplete_if_nil : Items → Items
incomplete_if_nil nil =
    cons
      (diagnostic "faithfulness.semantic_evidence_incomplete"
        "Deterministic structured-intent evidence is incomplete.")
      nil
incomplete_if_nil (cons x xs) = cons x xs

-- `_semantic_layer`
unfoldable pub semantic_layer : Option Fields → Option Fields → Items → Fields
semantic_layer requested encoded diagnostics =
    if both requested encoded && is_nil diagnostics
    then field "status" (str "passed") (field "diagnostics" (arr nil) end)
    else field "status" (str "failed")
        (field "diagnostics" (arr (incomplete_if_nil diagnostics)) end)

abbrev pub counterfactual_verdict : Fields → Option Bool → Option Fields
counterfactual_verdict v none = none
counterfactual_verdict v (some passed) = some (
    field "status" (verdict passed) (
      field "outcome" (value_at "status" v)
        (field "diagnostics" (arr (if passed then nil else diagnostics_of v)) end)))

-- `_counterfactual_layer`
unfoldable pub counterfactual_layer : Option Fields → Option Fields
unfolding diagnostics_of
counterfactual_layer none = some (
    field "status" (str "not_evaluated") (
      field "diagnostics"
        (arr (
          cons
            (diagnostic "faithfulness.counterfactual_not_evaluated"
              "Counterfactual replay was not evaluated.")
            nil))
        end))
counterfactual_layer (some v) =
    counterfactual_verdict v (in_set (value_at "status" v) ("passed" ∷ "not_applicable" ∷ []))

abbrev pub append_items : Items → Items → Items
append_items nil ys = ys
append_items (cons x xs) ys = cons x (append_items xs ys)
