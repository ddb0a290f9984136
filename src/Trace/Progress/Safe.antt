-- ===== src/Trace/Progress/Safe.antt =====
-- What the progress channel lets through.
use dexpi_datalog.Prelude.{
  ℕ, zero, suc, ◌≤◌, ◌<◌, String, ◌≡◌, refl, ap, false, Option, none, some, arith, leb, Bool-cases,
  inl, inr,
}
use dexpi_datalog.Prelude.Text.{len, len-slice_to, slice_to_all}
use dexpi_datalog.Json.{Json, null, bool, int, str, arr, obj, Items, nil, cons, Fields, end, field}
use dexpi_datalog.Trace.Progress.{
  mapping, max_progress_string_length, max_progress_list_items, max_progress_detail_keys,
  is_blocked, item, entry, sanitize_progress_value, sanitize_items, sanitize_fields,
  sanitize_progress_tool_input,
}

module _ (lower : String → String) where
  -- A value at nesting `depth` is free of nulls and of blocked keys, its texts, lists and dicts are
  -- bounded, and no container stands at depth 3 or more. The last two carry the places left.
  unfoldable mutual
    pub IsSafe : Json → ℕ → Type 0
    IsSafe null depth = ⊥
    IsSafe (bool b) depth = Unit
    IsSafe (int n) depth = Unit
    IsSafe (str s) depth = len s ≤ max_progress_string_length
    IsSafe (arr xs) depth = (depth < 3) × IsSafeItems xs max_progress_list_items (suc depth)
    IsSafe (obj fs) depth = (depth < 3) × IsSafeFields fs max_progress_detail_keys (suc depth)

    pub IsSafeItems : Items → ℕ → ℕ → Type 0
    IsSafeItems nil left depth = Unit
    IsSafeItems (cons x xs) zero depth = ⊥
    IsSafeItems (cons x xs) (suc left) depth = IsSafe x depth × IsSafeItems xs left depth

    pub IsSafeFields : Fields → ℕ → ℕ → Type 0
    IsSafeFields end left depth = Unit
    IsSafeFields (field k v fs) zero depth = ⊥
    IsSafeFields (field k v fs) (suc left) depth =
        (is_blocked lower k ≡ false) × IsSafe v depth × IsSafeFields fs left depth

  IsSafeItems-suc :
      (xs : Items) (left depth : ℕ) → IsSafeItems xs left depth → IsSafeItems xs (suc left) depth
  unfolding IsSafe
  IsSafeItems-suc nil left depth h = tt
  IsSafeItems-suc (cons x xs) zero depth h = absurd h
  IsSafeItems-suc (cons x xs) (suc left) depth h = (h.0, IsSafeItems-suc xs left depth h.1)

  IsSafeFields-suc :
      (fs : Fields) (left depth : ℕ) → IsSafeFields fs left depth → IsSafeFields fs (suc left) depth
  unfolding IsSafe
  IsSafeFields-suc end left depth h = tt
  IsSafeFields-suc (field k v fs) zero depth h = absurd h
  IsSafeFields-suc (field k v fs) (suc left) depth h =
      (h.0, h.1, IsSafeFields-suc fs left depth h.2)

  -- What a sanitized value must satisfy, if there is one.
  abbrev Safely : Option Json → ℕ → Type 0
  Safely none depth = Unit
  Safely (some v) depth = IsSafe v depth

  item-IsSafe :
      (o : Option Json) (rest : Items) (left depth : ℕ)
      → Safely o depth
      → IsSafeItems rest left depth
      → IsSafeItems (item o rest) (suc left) depth
  unfolding IsSafe
  item-IsSafe none rest left depth h hs = IsSafeItems-suc rest left depth hs
  item-IsSafe (some v) rest left depth h hs = (h, hs)

  entry-IsSafe :
      (k : String) (o : Option Json) (rest : Fields) (left depth : ℕ)
      → is_blocked lower k ≡ false
      → Safely o depth
      → IsSafeFields rest left depth
      → IsSafeFields (entry k o rest) (suc left) depth
  unfolding IsSafe
  entry-IsSafe k none rest left depth b h hs = IsSafeFields-suc rest left depth hs
  entry-IsSafe k (some v) rest left depth b h hs = (b, h, hs)

  mutual
    unfolding sanitize_progress_value IsSafe

    sanitize-Safely : (v : Json) (depth : ℕ) → Safely (sanitize_progress_value lower v depth) depth
    sanitize-Safely null depth = tt
    sanitize-Safely (bool b) depth = tt
    sanitize-Safely (int n) depth = tt
    sanitize-Safely (str s) depth = len-slice_to max_progress_string_length s
    sanitize-Safely (arr xs) depth = elim (Bool-cases (leb 3 depth)) [
      | inl deep ↦ rw deep tt
      | inr shallow ↦ rw shallow (ground arith, items-IsSafe xs max_progress_list_items (suc depth))
    ]
    sanitize-Safely (obj fs) depth = elim (Bool-cases (leb 3 depth)) [
      | inl deep ↦ rw deep tt
      | inr shallow ↦
          rw shallow (ground arith, fields-IsSafe fs max_progress_detail_keys (suc depth))
    ]

    items-IsSafe :
        (xs : Items) (left depth : ℕ) → IsSafeItems (sanitize_items lower xs left depth) left depth
    items-IsSafe nil left depth = tt
    items-IsSafe (cons x xs) zero depth = tt
    items-IsSafe (cons x xs) (suc left) depth =
        item-IsSafe (sanitize_progress_value lower x depth) (sanitize_items lower xs left depth)
          left depth (sanitize-Safely x depth) (items-IsSafe xs left depth)

    fields-IsSafe :
        (fs : Fields) (left depth : ℕ)
        → IsSafeFields (sanitize_fields lower fs left depth) left depth
    fields-IsSafe end left depth = tt
    fields-IsSafe (field k v fs) zero depth = tt
    fields-IsSafe (field k v fs) (suc left) depth = elim (Bool-cases (is_blocked lower k)) [
      | inl bad ↦ rw bad (
          IsSafeFields-suc (sanitize_fields lower fs left depth) left depth
            (fields-IsSafe fs left depth))
      | inr fine ↦ rw fine (
          entry-IsSafe k (sanitize_progress_value lower v depth)
            (sanitize_fields lower fs left depth) left depth fine (sanitize-Safely v depth)
            (fields-IsSafe fs left depth))
    ]

  mutual
    unfolding sanitize_progress_value IsSafe

    sanitize-safe :
        (v : Json) (depth : ℕ) → IsSafe v depth → sanitize_progress_value lower v depth ≡ some v
    sanitize-safe null depth h = absurd h
    sanitize-safe (bool b) depth h = refl
    sanitize-safe (int n) depth h = refl
    sanitize-safe (str s) depth h = rw (slice_to_all max_progress_string_length s h)
    sanitize-safe (arr xs) depth h =
        ground (arith, items-safe xs max_progress_list_items (suc depth))
    sanitize-safe (obj fs) depth h =
        ground (arith, fields-safe fs max_progress_detail_keys (suc depth))

    items-safe :
        (xs : Items) (left depth : ℕ)
        → IsSafeItems xs left depth
        → sanitize_items lower xs left depth ≡ xs
    items-safe nil left depth h = refl
    items-safe (cons x xs) zero depth h = absurd h
    items-safe (cons x xs) (suc left) depth h =
        rw (sanitize-safe x depth h.0, items-safe xs left depth h.1)

    fields-safe :
        (fs : Fields) (left depth : ℕ)
        → IsSafeFields fs left depth
        → sanitize_fields lower fs left depth ≡ fs
    fields-safe end left depth h = refl
    fields-safe (field k v fs) zero depth h = absurd h
    fields-safe (field k v fs) (suc left) depth h =
        rw (h.0, sanitize-safe v depth h.1, fields-safe fs left depth h.2)

  mapping-IsSafe :
      (o : Option Json) → Safely o 0 → IsSafeFields (mapping o) max_progress_detail_keys 1
  unfolding IsSafe
  mapping-IsSafe none h = tt
  mapping-IsSafe (some (obj fs)) h = h.1
  mapping-IsSafe (some _) h = tt

  -- Whatever a tool was called with, the arguments that reach the progress channel are bounded in
  -- every direction: at most 16 entries to a dict, 10 to a list and 400 characters to a text, at
  -- most three containers inside one another, no null and no blocked key at any depth.
  pub sanitize_progress_tool_input-IsSafe :
      (value : Json)
      → IsSafeFields (sanitize_progress_tool_input lower value) max_progress_detail_keys 1
  unfolding sanitize_progress_tool_input
  sanitize_progress_tool_input-IsSafe value =
      mapping-IsSafe (sanitize_progress_value lower value 0) (sanitize-Safely value 0)

  -- Sanitizing the arguments again changes nothing.
  pub sanitize_progress_tool_input_idem :
      (value : Json)
      → sanitize_progress_tool_input lower (obj (sanitize_progress_tool_input lower value))
        ≡ sanitize_progress_tool_input lower value
  sanitize_progress_tool_input_idem value =
      let input = sanitize_progress_tool_input lower value in
      let safe = sanitize_progress_tool_input-IsSafe value in
      let unchanged : sanitize_progress_value lower (obj input) 0 ≡ some (obj input) =
        sanitize-safe (obj input) 0 (unfold IsSafe in (omega arith, safe)) in
      unfold sanitize_progress_tool_input in ap mapping unchanged
