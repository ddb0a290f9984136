-- ===== src/Gate/Tests.antt =====
-- The gate on a revision that passes, and instances of its theorems.
use dexpi_datalog.Prelude.{◌≡◌, ◌↔◌, refl, true, Option, some}
use dexpi_datalog.Json
use dexpi_datalog.Json.{Json, null, str, bool, arr, obj, Items, nil, Fields, end, field}
use dexpi_datalog.Gate.Layers.{value_at, mechanical_layer, semantic_layer, counterfactual_layer}
use dexpi_datalog.Gate.Review.{review_texts, agreed, model_review_layer}
use dexpi_datalog.Gate.Evaluate.{evaluate_layered_faithfulness_gate}
use dexpi_datalog.Gate.Status.{is_passing}
use dexpi_datalog.Gate.Passes.{IsCleared, evaluate_passes_iff, review_only_vetoes}

-- a comparison that accepts every back-translation
abbrev lenient : Fields → Json → Option Fields × Items
lenient intent back = (some intent, nil)

abbrev intent : Fields
intent = field "negated" (bool true) end

abbrev safe : Fields
safe = field "status" (str "safe_to_confirm") end

abbrev replay : Option Fields
replay = some (field "status" (str "passed") end)

abbrev review : Json
review = obj (
    field "status" (str "faithful")
      (field "diagnostics" (arr nil) (field "back_translated_intent" (obj intent) end)))

passes :
    is_passing (
      evaluate_layered_faithfulness_gate lenient safe (some intent) (some intent) nil replay review)
    ≡ true
unfolding evaluate_layered_faithfulness_gate mechanical_layer semantic_layer counterfactual_layer
    model_review_layer review_texts agreed value_at Json.get
passes = refl

evaluate_passes_iff_example :
    (is_passing (
        evaluate_layered_faithfulness_gate lenient safe
          (some intent)
          (some intent)
          nil
          replay
          review)
      ≡ true)
    ↔ IsCleared lenient safe (some intent) (some intent) nil replay review
evaluate_passes_iff_example =
    evaluate_passes_iff lenient safe (some intent) (some intent) nil replay review

review_only_vetoes_example :
    is_passing
      (evaluate_layered_faithfulness_gate lenient safe (some intent) (some intent) nil replay null)
    ≡ true
review_only_vetoes_example =
    review_only_vetoes lenient safe (some intent) (some intent) nil replay review passes
