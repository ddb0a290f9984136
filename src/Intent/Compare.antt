-- ===== src/Intent/Compare.antt =====
-- `compare_structured_intents` of qa/structured_intent.py.
pub mod Equal
use dexpi_datalog.Prelude.{
  ℕ, String, Bool, true, false, ◌&&◌, Option, none, some, List, [], ◌∷◌, ◌==◌, string_eq, nat_eq,
  if◌then◌else◌,
}
use dexpi_datalog.Prelude.Text.{◌⊕◌}
use dexpi_datalog.Json
use dexpi_datalog.Json.{
  ℤ, pos, negsuc, Json, null, bool, int, str, arr, obj, Items, nil, cons, Fields, end, field,
}
use dexpi_datalog.Gate.Layers.{value_at}
use dexpi_datalog.Intent.{intent_fields, normalize_structured_intent}

abbrev same_bool : Bool → Bool → Bool
same_bool true c = c
same_bool false true = false
same_bool false false = true

-- z == b, where True is 1 and False is 0
abbrev same_int : ℤ → Bool → Bool
same_int (pos n) true = n == 1
same_int (pos n) false = n == 0
same_int (negsuc n) b = false

-- `==` of an element and a text of a normalized list
abbrev same_text : Json → Json → Bool
same_text (str s) (str t) = s == t
same_text _ _ = false

abbrev pub same_items : Items → Items → Bool
same_items nil nil = true
same_items (cons x xs) (cons y ys) = same_text x y && same_items xs ys
same_items _ _ = false

-- `==` of a requested value and a normalized one, which is a text, a flag or a list of texts
abbrev pub same_value : Json → Json → Bool
same_value (str s) (str t) = s == t
same_value (bool b) (bool c) = same_bool b c
same_value (int z) (bool c) = same_int z c
same_value (arr xs) (arr ys) = same_items xs ys
same_value _ _ = false

module _ (repr : String → String) (repr_json : Json → String) where
  abbrev mismatch : String → Json → Json → Json
  mismatch name requested encoded = obj (
      field "code" (str ("structured_intent." ⊕ (name ⊕ "_mismatch"))) (
        field "field" (str name) (
          field "requested" requested (
            field "encoded" encoded (
              field "message"
                (str (
                  "Generated query changed "
                  ⊕ (name
                      ⊕ (": requested "
                          ⊕ (repr_json requested ⊕ (", encoded " ⊕ (repr_json encoded ⊕ ".")))))))
                end)))))

  abbrev pub with_mismatch : String → Json → Json → Items → Items
  with_mismatch name requested encoded rest =
      if same_value requested encoded then rest else cons (mismatch name requested encoded) rest

  -- One field: `none` is the KeyError for a requested field that is not there.
  abbrev pub compare_field : String → Option Json → Json → Option Items → Option Items
  compare_field name (some requested) encoded (some rest) =
      some (with_mismatch name requested encoded rest)
  compare_field name _ encoded _ = none

  -- The loop over the fields.
  unfoldable pub mismatches : List String → Fields → Fields → Option Items
  unfolding value_at Json.get
  mismatches [] requested encoded = some nil
  mismatches (name ∷ names) requested encoded =
      compare_field name (Json.get name requested) (value_at name encoded)
        (mismatches names requested encoded)

  abbrev pub found_in : Fields → Option Items → Option (Option Fields × Items)
  found_in encoded none = none
  found_in encoded (some xs) = some (some encoded, xs)

  abbrev pub compare_normalized : Fields → Option Fields × Items → Option (Option Fields × Items)
  unfolding mismatches
  compare_normalized requested (some encoded, nil) =
      found_in encoded (mismatches intent_fields requested encoded)
  compare_normalized requested (_, diagnostics) = some (none, diagnostics)

  -- `compare_structured_intents`
  unfoldable pub compare_structured_intents : Fields → Json → Option (Option Fields × Items)
  unfolding compare_normalized normalize_structured_intent
  compare_structured_intents requested encoded =
      compare_normalized requested (normalize_structured_intent repr encoded)
