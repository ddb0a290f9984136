-- ===== src/Gate/Review.antt =====
-- The model review of qa/faithfulness_gate.py. `compare_structured_intents` of
-- qa/structured_intent.py is a parameter: it returns the normalized intent, if there is one, and
-- diagnostics.
use dexpi_datalog.Prelude.{
  String, Bool, true, false, not, ◌&&◌, Option, none, some, List, [], ◌∷◌, ◌==◌, string_eq,
  if◌then◌else◌,
}
use dexpi_datalog.Prelude.Text.{strip, is_blank}
use dexpi_datalog.Json.{Json, null, str, arr, obj, Items, nil, cons, Fields, end, field}
use dexpi_datalog.Gate.Layers.{append_items, diagnostic, is_nil, value_at, in_set}

-- the dict of a review layer
abbrev pub review_dict : String → Json → Json → Items → Items → Fields
review_dict status outcome back model_diagnostics diagnostics = field "status" (str status) (
    field "outcome" outcome (
      field "back_translated_intent" back (
        field "model_diagnostics" (arr model_diagnostics)
          (field "diagnostics" (arr diagnostics) end))))

-- `_failed_model_review`
abbrev failed_model_review : String → String → Json → Json → Items → Fields
failed_model_review code message outcome back model_diagnostics =
    review_dict "failed" outcome back model_diagnostics (cons (diagnostic code message) nil)

abbrev pub cons_text : String → Option Items → Option Items
cons_text s none = none
cons_text s (some xs) = some (cons (str (strip s)) xs)

-- the stripped texts, if all are texts that are not blank
pub texts : Items → Option Items
texts nil = some nil
texts (cons (str s) xs) = let rest = cons_text s (texts xs) in if is_blank s then none else rest
texts (cons _ xs) = none

unfoldable pub review_texts : Json → Option Items
unfolding texts
review_texts (arr xs) = texts xs
review_texts _ = none

abbrev pub json_of : Option Fields → Json
json_of none = null
json_of (some d) = obj d

abbrev pub review_statuses : List String
review_statuses = "faithful" ∷ "unfaithful" ∷ "uncertain" ∷ []

abbrev is_faithful : Json → Bool
is_faithful (str s) = "faithful" == s
is_faithful _ = false

abbrev is_uncertain : Json → Bool
is_uncertain (str s) = "uncertain" == s
is_uncertain _ = false

abbrev is_unfaithful : Json → Bool
is_unfaithful (str s) = "unfaithful" == s
is_unfaithful _ = false

-- the verdict on a review whose back-translation agrees with the request
unfoldable pub agreed : Json → Items → Fields → Fields
agreed status model_diagnostics normalized =
    if is_faithful status && not (is_nil model_diagnostics)
    then failed_model_review "faithfulness.model_review_conflict"
        "Model review claims faithfulness but also reports blocking diagnostics." status
        (obj normalized) model_diagnostics
    else if is_uncertain status
    then failed_model_review "faithfulness.model_review_uncertain"
        "Model back-translation reported uncertain faithfulness." status (obj normalized)
        model_diagnostics
    else if is_unfaithful status
    then failed_model_review "faithfulness.model_review_veto"
        "Model back-translation vetoed this generated revision." status (obj normalized)
        model_diagnostics
    else review_dict "passed" status (obj normalized) model_diagnostics nil

-- the verdict where it does not
unfoldable pub disagreed : Json → Items → Option Fields → Items → Fields
disagreed status model_diagnostics normalized comparison =
    let faithful = is_faithful status in
    review_dict "failed" status (json_of normalized) model_diagnostics (
      append_items
        (cons
          (diagnostic
            (if faithful
              then "faithfulness.model_review_conflict"
              else "faithfulness.model_review_incomplete")
            (if faithful
              then "Model back-translation conflicts with the requested intent."
              else "Model back-translation is incomplete or invalid."))
          nil)
        comparison)

abbrev pub compared : Json → Items → Option Fields × Items → Fields
compared status model_diagnostics (some normalized, nil) =
    agreed status model_diagnostics normalized
compared status model_diagnostics (normalized, comparison) =
    disagreed status model_diagnostics normalized comparison

module _ (compare_structured_intents : Fields → Json → Option Fields × Items) where
  abbrev pub with_texts : Option Fields → Fields → Option Items → Fields
  with_texts requested review none =
      failed_model_review "faithfulness.model_review_incomplete"
        "Model review diagnostics must be a list of non-empty strings." (value_at "status" review)
        null nil
  with_texts none review (some texts') =
      failed_model_review "faithfulness.model_review_incomplete"
        "Model review cannot be checked without backend-bound structured intent." null null nil
  with_texts (some intent) review (some texts') =
      compared (value_at "status" review) texts'
        (compare_structured_intents intent (value_at "back_translated_intent" review))

  abbrev pub with_status : Option Fields → Fields → Option Bool → Option Fields
  with_status requested review none = none
  with_status requested review (some false) = some (
      failed_model_review "faithfulness.model_review_incomplete"
        "Model review status must be faithful, unfaithful, or uncertain." null null nil)
  with_status requested review (some true) =
      some (with_texts requested review (review_texts (value_at "diagnostics" review)))

  -- `_model_review_layer`; None is `null`
  unfoldable pub model_review_layer : Option Fields → Json → Option Fields
  model_review_layer requested null = some (review_dict "not_applicable" null null nil nil)
  model_review_layer requested (obj review) =
      with_status requested review (in_set (value_at "status" review) review_statuses)
  model_review_layer requested _ = some (
      failed_model_review "faithfulness.model_review_incomplete"
        "When supplied, model review must be a structured back-translation." null null nil)
