-- ===== src/Direction.antt =====
-- qa/flow_direction.py. `str.lower`, `json.dumps` (compact, sorted keys) and sha256 as hex digits are
-- parameters.
pub mod Agree
mod Tests
use dexpi_datalog.Prelude.{
  String, Bool, true, false, ◌||◌, ◌&&◌, Option, none, some, List, [], ◌∷◌, ◌==◌, string_eq,
  contains, if◌then◌else◌,
}
use dexpi_datalog.Prelude.Text.{◌⊕◌, slice_to, occurs}
use dexpi_datalog.Json.{Json, null, str, arr, obj, Items, nil, cons, end, field}

abbrev pub directed_relationships : List String
directed_relationships =
    "source" ∷ "target" ∷ "sourceItem" ∷ "targetItem" ∷ "sourceNode" ∷ "targetNode" ∷ []

abbrev downstream_tokens : List String
downstream_tokens = "downstream" ∷ "discharge" ∷ "feeds" ∷ "flows to" ∷ "flow to" ∷ "outlet" ∷ []

abbrev upstream_tokens : List String
upstream_tokens = "upstream" ∷ "feeds from" ∷ "supplied by" ∷ "inlet" ∷ "suction" ∷ []

unfoldable pub classify_edge_direction_basis : String → String
classify_edge_direction_basis relationship =
    if contains directed_relationships relationship then "explicit" else "inferred"

abbrev pub all_explicit : List String → Bool
all_explicit [] = true
all_explicit (r ∷ rs) = classify_edge_direction_basis r == "explicit" && all_explicit rs

unfoldable pub classify_path_direction_basis : List String → String
classify_path_direction_basis [] = "unknown"
classify_path_direction_basis (r ∷ rs) = if all_explicit (r ∷ rs) then "explicit" else "inferred"

-- any(token in text for token in tokens)
abbrev any_token : List String → String → Bool
any_token [] text = false
any_token (t ∷ ts) text = occurs t text || any_token ts text

unfoldable pub detect_directed_intent : (String → String) → String → Option String
detect_directed_intent lower question =
    let normalized = lower question in
    if any_token upstream_tokens normalized
    then some "upstream"
    else if any_token downstream_tokens normalized
    then some "downstream"
    else none

unfoldable pub opposite_direction : String → String
opposite_direction direction =
    if direction == "downstream"
    then "upstream"
    else if direction == "upstream"
    then "downstream"
    else direction

abbrev pub evaluation_boundary : String → String
evaluation_boundary direction = "directed_reachable:" ⊕ direction

abbrev text_or_null : Option String → Json
text_or_null none = null
text_or_null (some s) = str s

abbrev texts : List String → Items
texts [] = nil
texts (s ∷ ss) = cons (str s) (texts ss)

pub direction_annotation_key :
    (dumps_compact : Json → String) (sha256_hex : String → String)
    → Option String
    → String
    → List String
    → List String
    → String
unfolding slice_to
direction_annotation_key dumps_compact sha256_hex source boundary node_ids edge_ids =
    "direction-"
    ⊕ slice_to 16 (
        sha256_hex (
          dumps_compact (
            obj (
              field "source_id" (text_or_null source) (
                field "evaluation_boundary" (str boundary) (
                  field "node_ids" (arr (texts node_ids))
                    (field "edge_ids" (arr (texts edge_ids)) end)))))))

unfoldable pub effective_direction : String → String → String
unfolding opposite_direction
effective_direction proposed review_status =
    if review_status == "confirmed"
    then proposed
    else if review_status == "reversed"
    then opposite_direction proposed
    else "unknown"
