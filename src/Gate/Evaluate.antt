-- ===== src/Gate/Evaluate.antt =====
-- `evaluate_layered_faithfulness_gate` of qa/faithfulness_gate.py.
use dexpi_datalog.Prelude.{Bool, ◌&&◌, ◌||◌, Option, none, some, string_eq}
use dexpi_datalog.Json.{Json, arr, obj, Items, Fields, end, field}
use dexpi_datalog.Gate.Layers.{
  diagnostics_of, append_items, verdict, has_status, mechanical_layer, semantic_layer,
  counterfactual_layer,
}
use dexpi_datalog.Gate.Review.{model_review_layer}

module _ (compare_structured_intents : Fields → Json → Option Fields × Items) where
  abbrev pub gate_passed : Fields → Fields → Fields → Fields → Bool
  gate_passed mechanical semantic counterfactual model =
      has_status "passed" mechanical
      && has_status "passed" semantic
      && has_status "passed" counterfactual
      && (has_status "passed" model || has_status "not_applicable" model)

  abbrev pub gate_result : Fields → Fields → Fields → Fields → Fields
  gate_result mechanical semantic counterfactual model =
      field "status" (verdict (gate_passed mechanical semantic counterfactual model)) (
        field "layers"
          (obj (
            field "mechanical" (obj mechanical) (
              field "semantic" (obj semantic) (
                field "counterfactual" (obj counterfactual)
                  (field "model_review" (obj model) end)))))
          (field "diagnostics"
            (arr (
              append_items (diagnostics_of mechanical) (
                append_items (diagnostics_of semantic)
                  (append_items (diagnostics_of counterfactual) (diagnostics_of model)))))
            end))

  abbrev pub gate_of : Fields → Fields → Option Fields → Option Fields → Option Fields
  gate_of mechanical semantic (some counterfactual) (some model) =
      some (gate_result mechanical semantic counterfactual model)
  gate_of mechanical semantic _ _ = none

  -- `none` is a TypeError that escapes
  unfoldable pub evaluate_layered_faithfulness_gate :
      Fields → Option Fields → Option Fields → Items → Option Fields → Json → Option Fields
  unfolding mechanical_layer semantic_layer counterfactual_layer model_review_layer
  evaluate_layered_faithfulness_gate mechanical requested encoded diagnostics counterfactual
        review =
      gate_of (mechanical_layer mechanical) (semantic_layer requested encoded diagnostics)
        (counterfactual_layer counterfactual)
        (model_review_layer compare_structured_intents requested review)
