-- ===== src/Intent.antt =====
-- qa/structured_intent.py: `normalize_structured_intent` and `compare_structured_intents`.
pub mod Canonical
pub mod Fixed
pub mod Compare
mod Tests
use dexpi_datalog.Prelude.{
  ℕ, String, Bool, true, false, not, ◌&&◌, Option, none, some, List, [], ◌∷◌, ◌++◌, ◌==◌, string_eq,
  nat_eq, contains, keep, length, map, if◌then◌else◌,
}
use dexpi_datalog.Prelude.Text.{◌⊕◌, join, strip}
use dexpi_datalog.Prelude.Sort.{sort, text_le}
use dexpi_datalog.Prelude.Sets.{distinct}
use dexpi_datalog.Json
use dexpi_datalog.Json.{
  ℤ, pos, negsuc, Json, null, bool, int, str, arr, obj, Items, nil, cons, Fields, end, field,
  to_items,
}
use dexpi_datalog.Gate.Layers.{value_at, is_nil, append_items}

abbrev pub intent_fields : List String
intent_fields =
    "source_classes" ∷ "target_classes" ∷ "source_role" ∷ "target_role" ∷ "graph_scope"
    ∷ "direction" ∷ "quantifier" ∷ "negated" ∷ "output_obligations" ∷ []

-- How a field is checked: a list of texts, a flag, or a text, perhaps one of a few.
pub data Kind : Type 0 where
  texts flag text : Kind
  one_of : List String → Kind

-- `_LIST_FIELDS`, `_ALLOWED_VALUES` and the test for "negated", by field
abbrev pub field_kinds : List (String × Kind)
field_kinds =
    ("source_classes", texts)
    ∷ ("target_classes", texts)
    ∷ ("source_role", text)
    ∷ ("target_role", text)
    ∷ ("graph_scope", one_of ("all_topology" ∷ "instrumentation_inclusive" ∷ "piping_only" ∷ []))
    ∷ ("direction", one_of ("directed" ∷ "undirected" ∷ []))
    ∷ ("quantifier", one_of ("all" ∷ "any" ∷ []))
    ∷ ("negated", flag)
    ∷ ("output_obligations", texts)
    ∷ []

-- A normalized value, or what is required of the field.
pub data Checked : Type 0 where
  normal : Json → Checked
  requires : String → Checked

-- The texts of a list of texts that are not blank.
abbrev pub stripped_texts : Items → Option (List String)
stripped_texts nil = some []
stripped_texts (cons (str s) xs) =
    let rest = stripped_texts xs in
    if strip s == "" then none else elim rest [ none ↦ none | some ts ↦ some (strip s ∷ ts) ]
stripped_texts (cons _ xs) = none

abbrev pub to_texts : List String → Json
to_texts ts = arr (to_items (map str ts))

unfoldable pub check_distinct : List String → Checked
unfolding distinct sort
check_distinct items =
    if length (distinct items) == length items
    then normal (to_texts (sort text_le items))
    else requires "must not contain duplicates"

abbrev pub check_items : Option (List String) → Checked
unfolding check_distinct
check_items none = requires "must be a non-empty list of strings"
check_items (some []) = requires "must be a non-empty list of strings"
check_items (some (t ∷ ts)) = check_distinct (t ∷ ts)

abbrev pub check_word : Option (List String) → String → Checked
check_word none candidate = normal (str candidate)
check_word (some allowed) candidate =
    if contains allowed candidate
    then normal (str candidate)
    else requires ("must be one of " ⊕ join ", " (sort text_le allowed))

abbrev pub check_text : Option (List String) → Json → Checked
check_text allowed (str s) =
    if strip s == "" then requires "must be a non-empty string" else check_word allowed (strip s)
check_text allowed _ = requires "must be a non-empty string"

-- the body of the loop over the fields
unfoldable pub check_field : Kind → Json → Checked
unfolding strip check_distinct join
check_field texts (arr xs) = check_items (stripped_texts xs)
check_field texts _ = requires "must be a non-empty list of strings"
check_field flag (bool b) = normal (bool b)
check_field flag _ = requires "must be a boolean"
check_field text raw = check_text none raw
check_field (one_of allowed) raw = check_text (some allowed) raw

abbrev pub keys : Fields → List String
keys end = []
keys (field k v d) = k ∷ keys d

module _ (repr : String → String) where
  -- `_invalid`
  abbrev pub invalid : String → String → Json → Json
  invalid name requirement encoded = obj (
      field "code" (str "structured_intent.invalid") (
        field "field" (str name) (
          field "encoded" encoded (
            field "message"
              (str ("Structured intent field " ⊕ (repr name ⊕ (" " ⊕ (requirement ⊕ "."))))) end))))

  abbrev pub missing_fields : Fields → List String
  missing_fields value = sort text_le (keep (λ k. not (contains (keys value) k)) intent_fields)

  abbrev pub extra_fields : Fields → List String
  extra_fields value = sort text_le (keep (λ k. not (contains intent_fields k)) (keys value))

  -- The diagnostics on the keys.
  unfoldable pub check_keys : Fields → Items
  unfolding sort value_at
  check_keys value =
      append_items (to_items (map (λ k. invalid k "is required" null) (missing_fields value)))
        (to_items (map (λ k. invalid k "is not supported" (value_at k value)) (extra_fields value)))

  abbrev with_field : String → Json → Checked → Fields × Items → Fields × Items
  with_field name raw (normal v) (normalized, diagnostics) = (field name v normalized, diagnostics)
  with_field name raw (requires what) (normalized, diagnostics) =
      (normalized, cons (invalid name what raw) diagnostics)

  -- The loop over the fields.
  unfoldable pub normalize_fields : List (String × Kind) → Fields → Fields × Items
  unfolding check_field value_at
  normalize_fields [] value = (end, nil)
  normalize_fields ((name, kind) ∷ rest) value =
      with_field name (value_at name value) (check_field kind (value_at name value))
        (normalize_fields rest value)

  abbrev normalized_if_nil : Fields → Items → Option Fields × Items
  normalized_if_nil normalized nil = (some normalized, nil)
  normalized_if_nil normalized (cons x xs) = (none, cons x xs)

  -- `normalize_structured_intent`
  unfoldable pub normalize_structured_intent : Json → Option Fields × Items
  unfolding normalize_fields check_keys
  normalize_structured_intent (obj value) =
      let loop = normalize_fields field_kinds value in
      normalized_if_nil loop.0 (append_items (check_keys value) loop.1)
  normalize_structured_intent value =
      (none, cons (invalid "structured_intent" "must be an object" value) nil)
