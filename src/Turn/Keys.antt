-- ===== src/Turn/Keys.antt =====
-- The keys of web/turn_lifecycle.py and web/execution_trace.py: no trace artifact has the key of a
-- turn, and both are accepted or refused together.
use mathlib.Core.List.{append_assoc as list_append_assoc}
use text.Mathlib.TextLemmas.{append_assoc}
use text.Mathlib.TextEquality.{eq_iff}
use dexpi_datalog.Prelude.{
  ℕ, zero, suc, ◌≤◌, String, ◌≡◌, refl, sym, ap, ◌∙◌, true, false, List, [], ◌∷◌, ◌++◌, arith,
  string_eq, ◌==◌, inl, inr, Bool-cases,
}
use dexpi_datalog.Prelude.Text.{◌⊕◌, len, slice_to}
use dexpi_datalog.Store.Key.{path_parts, validate_key, is_some}
use dexpi_datalog.Store.Key.Beside.{
  is_flat, is_flat-append, len-append, path_parts_flat, path_parts-append, turns_prefix,
  beside_accepted, last_of, last_of-snoc,
}
use dexpi_datalog.Trace.Render.{Group, trace_key, event_id_of}
use dexpi_datalog.Turn.Defs.{Backend, turn_key, compute_turn_id}

-- An id of a turn: 20 characters, none of them a slash.
pub record IsId (tid : String) : Type 0 where
  pub flat : is_flat tid ≡ true
  pub size : len tid ≡ 20

slice_to-flat : (n : ℕ) (s : String) → is_flat s ≡ true → is_flat (slice_to n s) ≡ true
unfolding is_flat slice_to
slice_to-flat zero s h = refl
slice_to-flat (suc n) String.[] h = refl
slice_to-flat (suc n) (String.◌∷◌ c s) h = ground (arith, slice_to-flat n s)

slice_to-full : (n : ℕ) (s : String) → n ≤ len s → len (slice_to n s) ≡ n
unfolding slice_to
slice_to-full zero s h = refl
slice_to-full (suc n) String.[] h = absurd (omega arith)
slice_to-full (suc n) (String.◌∷◌ c s) h = omega (arith, slice_to-full n s (omega arith))

flat_named : (x y : String) → is_flat x ≡ true → is_flat y ≡ true → is_flat (x ⊕ y) ≡ true
flat_named x y h k = is_flat-append x y ∙ rw (h, k)

segment :
    (x y : String)
    → is_flat x ≡ true
    → is_flat y ≡ true
    → 2 ≤ len y
    → path_parts (x ⊕ y) ≡ (x ⊕ y) ∷ []
segment x y h k n = path_parts_flat (x ⊕ y) (flat_named x y h k) (omega (arith, len-append x y))

turns_parts : path_parts "turns" ≡ "turns" ∷ []
turns_parts = path_parts_flat "turns" (unfold is_flat in refl) (omega arith)

-- What stands under `turns` of a session.
under_turns :
    (sid y : String) → path_parts (sid ⊕ ("/turns/" ⊕ y)) ≡ path_parts sid ++ "turns" ∷ path_parts y
under_turns sid y =
    ap (λ z. path_parts (sid ⊕ z)) (turns_prefix y)
    ∙ path_parts-append sid ("turns" ⊕ ("/" ⊕ y))
    ∙ ap (λ ps. path_parts sid ++ ps)
        (path_parts-append "turns" y ∙ ap (λ ps. ps ++ path_parts y) turns_parts)

trace_rest :
    (tid eid : String)
    → is_flat tid ≡ true
    → is_flat eid ≡ true
    → path_parts (tid ⊕ (".trace/" ⊕ (eid ⊕ ".json"))) ≡ (tid ⊕ ".trace") ∷ (eid ⊕ ".json") ∷ []
trace_rest tid eid h k =
    ap path_parts (
      ap (λ z. tid ⊕ z) (append_assoc ".trace" "/" (eid ⊕ ".json"))
      ∙ sym (append_assoc tid ".trace" ("/" ⊕ (eid ⊕ ".json"))))
    ∙ path_parts-append (tid ⊕ ".trace") (eid ⊕ ".json")
    ∙ rw (
      segment tid ".trace" h (unfold is_flat in refl) (omega arith),
      segment eid ".json" k (unfold is_flat in refl) (omega arith),
    )

last_under : (xs : List String) (t y : String) → last_of (xs ++ t ∷ y ∷ []) ≡ y
last_under xs t y =
    ap last_of (sym (list_append_assoc xs (t ∷ []) (y ∷ []))) ∙ last_of-snoc (xs ++ t ∷ []) y

turn_rest :
    (sid tid : String)
    → IsId tid
    → path_parts (turn_key sid tid) ≡ path_parts sid ++ "turns" ∷ (tid ⊕ ".json") ∷ []
turn_rest sid tid h =
    under_turns sid (tid ⊕ ".json")
    ∙ ap (λ ps. path_parts sid ++ "turns" ∷ ps)
        (segment tid ".json" h.flat (unfold is_flat in refl) (omega arith))

-- An id of a trace event: 16 characters, none of them a slash.
pub record IsEventId (eid : String) : Type 0 where
  pub flat : is_flat eid ≡ true
  pub size : len eid ≡ 16

trace_parts :
    (sid tid eid : String)
    → is_flat tid ≡ true
    → is_flat eid ≡ true
    → path_parts (trace_key sid tid eid)
      ≡ (path_parts sid ++ "turns" ∷ []) ++ (tid ⊕ ".trace") ∷ (eid ⊕ ".json") ∷ []
trace_parts sid tid eid h k =
    under_turns sid (tid ⊕ (".trace/" ⊕ (eid ⊕ ".json")))
    ∙ ap (λ ps. path_parts sid ++ "turns" ∷ ps) (trace_rest tid eid h k)
    ∙ sym (
        list_append_assoc (path_parts sid) ("turns" ∷ []) ((tid ⊕ ".trace") ∷ (eid ⊕ ".json") ∷ []))

same_name : (tid eid : String) → IsId tid → IsEventId eid → ¬ (tid ⊕ ".json" ≡ eid ⊕ ".json")
same_name tid eid h k e =
    let left = len-append tid ".json" in
    let right = len-append eid ".json" in
    let lens = ap len e in absurd (omega (arith, left, right, lens, h.size, k.size))

not_dots : (x y : String) → 3 ≤ len y → (x ⊕ y == "..") ≡ false
not_dots x y n = elim (Bool-cases (x ⊕ y == "..")) [
  | inl e ↦ absurd (omega (arith, len-append x y, ap len ((eq_iff (x ⊕ y) "..").0 e), n))
  | inr h ↦ h
]

module _ (b : Backend) where
  open b use {store}

  pub compute_turn_id-IsId : (sid rid : String) → IsId (compute_turn_id b sid rid)
  unfolding compute_turn_id
  compute_turn_id-IsId sid rid = record {
    flat = slice_to-flat 20 _ (b.sha256_flat _);
    size = slice_to-full 20 _ (omega (arith, b.sha256_length (sid ⊕ ("\n" ⊕ rid))));
  }

  pub event_id_of-IsEventId : (tid : String) (g : Group) → IsEventId (event_id_of b.texts tid g)
  unfolding event_id_of
  event_id_of-IsEventId tid g = record {
    flat = slice_to-flat 16 _ (b.sha256_flat _);
    size = slice_to-full 16 _ (long _);
  }
    where
      long : (s : String) → 16 ≤ len (b.texts.sha256_hex s)
      long s = omega (arith, b.sha256_length s)

  -- No key of a turn names a trace artifact.
  pub keys_apart :
      (sid tid sid' tid' eid : String)
      → IsId tid
      → is_flat tid' ≡ true
      → IsEventId eid
      → ¬ (path_parts (turn_key sid tid) ≡ path_parts (trace_key sid' tid' eid))
  keys_apart sid tid sid' tid' eid h f k parts = same_name tid eid h k (
      sym (last_under (path_parts sid) "turns" (tid ⊕ ".json"))
      ∙ ap last_of (sym (turn_rest sid tid h) ∙ parts ∙ trace_parts sid' tid' eid f k.flat)
      ∙ last_under (path_parts sid' ++ "turns" ∷ []) (tid' ⊕ ".trace") (eid ⊕ ".json"))

  -- Where the key of a turn is accepted, so are those of its trace artifacts.
  pub trace_accepted :
      (sid tid eid : String)
      → is_flat tid ≡ true
      → IsEventId eid
      → store.accepts (turn_key sid tid) ≡ true
      → store.accepts (trace_key sid tid eid) ≡ true
  trace_accepted sid tid eid f k h =
      let rest : path_parts ("turns" ⊕ ("/" ⊕ (tid ⊕ (".trace/" ⊕ (eid ⊕ ".json")))))
          ≡ "turns" ∷ (tid ⊕ ".trace") ∷ (eid ⊕ ".json") ∷ [] =
        path_parts-append "turns" _
        ∙ ap (λ ps. ps ++ path_parts (tid ⊕ (".trace/" ⊕ (eid ⊕ ".json")))) turns_parts
        ∙ ap (λ ps. "turns" ∷ ps) (trace_rest tid eid f k.flat) in
      let was : is_some (validate_key (sid ⊕ ("/" ⊕ ("turns" ⊕ ("/" ⊕ (tid ⊕ ".json")))))) ≡ true =
        ap (λ z. is_some (validate_key (sid ⊕ z))) (sym (turns_prefix (tid ⊕ ".json")))
        ∙ sym (store.accepts_valid (turn_key sid tid))
        ∙ h in
      store.accepts_valid (trace_key sid tid eid)
      ∙ ap (λ z. is_some (validate_key (sid ⊕ z)))
          (turns_prefix (tid ⊕ (".trace/" ⊕ (eid ⊕ ".json"))))
      ∙ beside_accepted sid _ _ "turns" _ was rest
          (rw (rest, not_dots tid ".trace" (omega arith), not_dots eid ".json" (omega arith)))
