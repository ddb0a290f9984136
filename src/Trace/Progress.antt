-- ===== src/Trace/Progress.antt =====
-- The live progress channel of web/execution_trace.py: `sanitize_progress_tool_input`,
-- `_sanitize_progress_value` and `bound_reasoning_text`. `str.lower` is a parameter.
pub mod Safe
use dexpi_datalog.Prelude.{
  ℕ, zero, suc, String, Bool, true, false, Option, none, some, List, [], ◌∷◌, ◌==◌, string_eq, leb,
  if◌then◌else◌, ◌≡◌, refl, ◌||◌,
}
use dexpi_datalog.Prelude.Text.{slice_to, occurs, strip}
use dexpi_datalog.Json.{
  Json, null, bool, int, str, arr, obj, Items, nil, cons, Fields, end, field, pos,
}

abbrev pub max_progress_string_length : ℕ
max_progress_string_length = 400

abbrev pub max_progress_detail_keys : ℕ
max_progress_detail_keys = 16

abbrev pub max_progress_list_items : ℕ
max_progress_list_items = 10

abbrev pub max_reasoning_length : ℕ
max_reasoning_length = 2000

abbrev pub blocked_progress_key_parts : List String
blocked_progress_key_parts =
    "api_key" ∷ "authorization" ∷ "chain_of_thought" ∷ "credential" ∷ "password" ∷ "private"
    ∷ "secret" ∷ "system_prompt" ∷ "token" ∷ []

-- any(part in key for part in parts)
occurs_any : List String → String → Bool
occurs_any [] key = false
occurs_any (part ∷ parts) key = occurs part key || occurs_any parts key

abbrev item : Option Json → Items → Items
item none rest = rest
item (some v) rest = cons v rest

abbrev entry : String → Option Json → Fields → Fields
entry k none rest = rest
entry k (some v) rest = field k v rest

-- `sanitized if isinstance(sanitized, dict) else {}`
abbrev pub mapping : Option Json → Fields
mapping (some (obj fs)) = fs
mapping _ = end

-- `None`, for a JSON null and for what is dropped, is `none`.
module _ (lower : String → String) where
  pub is_blocked : String → Bool
  unfolding occurs_any
  is_blocked key = occurs_any blocked_progress_key_parts (lower key)

  -- `_items` and `_fields` take the number of entries that the slice leaves.
  unfoldable mutual
    pub sanitize_progress_value : Json → ℕ → Option Json
    sanitize_progress_value null depth = none
    sanitize_progress_value (bool b) depth = some (bool b)
    sanitize_progress_value (int n) depth = some (int n)
    sanitize_progress_value (str s) depth = some (str (slice_to max_progress_string_length s))
    sanitize_progress_value (arr xs) depth =
        let items = sanitize_items xs max_progress_list_items (suc depth) in
        if leb 3 depth then none else some (arr items)
    sanitize_progress_value (obj fs) depth =
        let fields = sanitize_fields fs max_progress_detail_keys (suc depth) in
        if leb 3 depth then none else some (obj fields)

    pub sanitize_items : Items → ℕ → ℕ → Items
    sanitize_items nil left depth = nil
    sanitize_items (cons x xs) zero depth = nil
    sanitize_items (cons x xs) (suc left) depth =
        item (sanitize_progress_value x depth) (sanitize_items xs left depth)

    pub sanitize_fields : Fields → ℕ → ℕ → Fields
    sanitize_fields end left depth = end
    sanitize_fields (field k v fs) zero depth = end
    sanitize_fields (field k v fs) (suc left) depth =
        let rest = sanitize_fields fs left depth in
        if is_blocked k then rest else entry k (sanitize_progress_value v depth) rest

  unfoldable pub sanitize_progress_tool_input : Json → Fields
  sanitize_progress_tool_input value = mapping (sanitize_progress_value value 0)

-- `none` where the reasoning is absent or blank
unfoldable pub bound_reasoning_text : Option String → Option String
bound_reasoning_text none = none
bound_reasoning_text (some value) =
    let stripped = strip value in
    if stripped == "" then none else some (slice_to max_reasoning_length stripped)

sanitize_runs :
    sanitize_progress_tool_input
      (λ s. s)
      (obj
        (field "api_key" (str "k") (field "class" (arr (cons null (cons (int (pos 3)) nil))) end)))
    ≡ field "class" (arr (cons (int (pos 3)) nil)) end
unfolding sanitize_progress_tool_input sanitize_progress_value is_blocked slice_to occurs
sanitize_runs = refl
