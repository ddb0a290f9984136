-- ===== src/Intent/Tests.antt =====
-- Intents as a model writes them, and instances of the theorems on them.
use dexpi_datalog.Prelude.{String, ◌≡◌, ◌↔◌, refl, true, some, [], ◌∷◌}
use dexpi_datalog.Prelude.Sort.{text_le}
use dexpi_datalog.Json
use dexpi_datalog.Json.{Json, bool, str, arr, obj, nil, Fields, end, field}
use dexpi_datalog.Intent.{to_texts, normalize_structured_intent}
use dexpi_datalog.Intent.Fixed.{nine, normalize_structured_intent_again}
use dexpi_datalog.Gate.Evaluate.{evaluate_layered_faithfulness_gate}
use dexpi_datalog.Gate.Status.{is_passing}
use dexpi_datalog.Gate.Compared.{compare, IsMeant, reviewed_gate_passes_iff}
use dexpi_datalog.Intent.Compare.{compare_structured_intents}
use dexpi_datalog.Intent.Compare.Equal.{compare_structured_intents_iff}

-- repr of a text without quotes
abbrev repr : String → String
repr s = s

abbrev repr_json : Json → String
repr_json v = "?"

abbrev intent_of : Json → Json → Fields
intent_of sources role =
    nine sources (to_texts ("tank" ∷ [])) role (str "sink") (str "all_topology") (str "directed")
      (str "any") (bool true) (to_texts ("pairs" ∷ []))

abbrev written : Fields
written = intent_of (to_texts (" valve " ∷ "pump" ∷ [])) (str " start ")

abbrev canonical : Fields
canonical = intent_of (to_texts ("pump" ∷ "valve" ∷ [])) (str "start")

normalizes : normalize_structured_intent repr (obj written) ≡ (some canonical, nil)
unfolding normalize_structured_intent Json.get text_le
normalizes = refl

normalize_structured_intent_again_example :
    normalize_structured_intent repr (obj canonical) ≡ (some canonical, nil)
normalize_structured_intent_again_example =
    normalize_structured_intent_again repr (obj written) canonical normalizes

compare_structured_intents_iff_example :
    (compare_structured_intents repr repr_json canonical (obj written) ≡ some (some canonical, nil))
    ↔ ((normalize_structured_intent repr (obj written) ≡ (some canonical, nil))
        × (canonical ≡ canonical))
compare_structured_intents_iff_example =
    compare_structured_intents_iff repr repr_json (obj written) canonical (obj written) canonical
      normalizes

abbrev review : Fields
review =
    field "status" (str "faithful")
      (field "diagnostics" (arr nil) (field "back_translated_intent" (obj written) end))

abbrev safe : Fields
safe = field "status" (str "safe_to_confirm") end

abbrev replay : Fields
replay = field "status" (str "passed") end

reviewed_gate_passes_iff_example :
    (is_passing (
        evaluate_layered_faithfulness_gate
          (compare repr repr_json)
          safe
          (some canonical)
          (some canonical)
          nil
          (some replay)
          (obj review))
      ≡ true)
    ↔ IsMeant repr repr_json safe canonical (some canonical) nil (some replay) review
reviewed_gate_passes_iff_example =
    reviewed_gate_passes_iff repr repr_json (obj written) canonical normalizes safe (some canonical)
      nil (some replay) review
