-- ===== src/Intent/Compare/Equal.antt =====
-- When `compare_structured_intents` of qa/structured_intent.py finds no mismatch.
use mathlib.Core.Path.{subst}
use dexpi_datalog.Prelude.{
  String, ◌≡◌, refl, sym, ap, ◌∙◌, ◌↔◌, inl, inr, Bool, true, false, Option, none, some, List, [],
  ◌∷◌, ◌==◌, string_eq, ==_refl, map, Bool-cases, arith,
}
use dexpi_datalog.Prelude.Sort.{sort, text_le}
use dexpi_datalog.Prelude.Text.{strip}
use dexpi_datalog.Json
use dexpi_datalog.Json.{
  Json, null, bool, int, str, arr, obj, Items, nil, cons, Fields, end, field, to_items,
}
use dexpi_datalog.Intent.{
  Kind, texts, flag, text, one_of, normal, check_field, check_text, check_items, stripped_texts,
  intent_fields, normalize_structured_intent,
}
use dexpi_datalog.Intent.Canonical.{refuses, distinct_value, word_value}
use dexpi_datalog.Intent.Fixed.{nine, IsNine, normalized-IsNine}
use dexpi_datalog.Intent.Compare.{
  same_items, same_value, mismatches, with_mismatch, compare_normalized, compare_structured_intents,
  found_in,
}

-- The values that a normalized field can have.
abbrev IsShaped : Json → Type 0
IsShaped (str s) = Unit
IsShaped (bool b) = Unit
IsShaped (arr xs) = (ts : List String) × (xs ≡ to_items (map str ts))
IsShaped _ = ⊥

same_texts_iff :
    (ss ts : List String)
    → (same_items (to_items (map str ss)) (to_items (map str ts)) ≡ true) ↔ (ss ≡ ts)
same_texts_iff [] [] = (λ h. refl, λ h. refl)
same_texts_iff [] (t ∷ ts) = (λ h. cc, λ h. cc)
same_texts_iff (s ∷ ss) [] = (λ h. cc, λ h. cc)
same_texts_iff (s ∷ ss) (t ∷ ts) = (
  λ h. ground (arith, string_eq.equals_iff s t, same_texts_iff ss ts),
  λ h. ground (arith, string_eq.equals_iff s t, same_texts_iff ss ts),
)

same_bools : (b c : Bool) → same_value (bool b) (bool c) ≡ true → bool b ≡ bool c
same_bools true true h = refl
same_bools true false h = cc
same_bools false true h = cc
same_bools false false h = refl

same_shaped : (v w : Json) → IsShaped v → IsShaped w → same_value v w ≡ true → v ≡ w
same_shaped (str s) (str t) hv hw h = ap str ((string_eq.equals_iff s t).0 h)
same_shaped null w hv hw h = absurd hv
same_shaped (int z) w hv hw h = absurd hv
same_shaped (obj d) w hv hw h = absurd hv
same_shaped (bool b) null hv hw h = absurd hw
same_shaped (bool b) (int z) hv hw h = absurd hw
same_shaped (bool b) (obj d) hv hw h = absurd hw
same_shaped (str s) null hv hw h = absurd hw
same_shaped (str s) (int z) hv hw h = absurd hw
same_shaped (str s) (obj d) hv hw h = absurd hw
same_shaped (arr xs) null hv hw h = absurd hw
same_shaped (arr xs) (int z) hv hw h = absurd hw
same_shaped (arr xs) (obj d) hv hw h = absurd hw
same_shaped (str s) (bool c) hv hw h = cc
same_shaped (str s) (arr ys) hv hw h = cc
same_shaped (bool b) (bool c) hv hw h = same_bools b c h
same_shaped (bool b) (str t) hv hw h = cc
same_shaped (bool b) (arr ys) hv hw h = cc
same_shaped (arr xs) (str t) hv hw h = cc
same_shaped (arr xs) (bool c) hv hw h = cc
same_shaped (arr xs) (arr ys) (ss, es) (ts, et) h =
    let texts_same : same_items (to_items (map str ss)) (to_items (map str ts)) ≡ true =
      rw (sym es, sym et) h in
    ap arr (es ∙ ap (λ l. to_items (map str l)) ((same_texts_iff ss ts).0 texts_same) ∙ sym et)

same_itself : (v : Json) → IsShaped v → same_value v v ≡ true
same_itself null h = absurd h
same_itself (int z) h = absurd h
same_itself (obj d) h = absurd h
same_itself (str s) h = ==_refl s
same_itself (bool true) h = refl
same_itself (bool false) h = refl
same_itself (arr xs) (ts, e) = rw e ((same_texts_iff ts ts).1 refl)

items-IsShaped : (o : Option (List String)) (w : Json) → check_items o ≡ normal w → IsShaped w
unfolding check_items
items-IsShaped none w h = refuses h
items-IsShaped (some []) w h = refuses h
items-IsShaped (some (t ∷ ts)) w h =
    subst IsShaped (distinct_value (t ∷ ts) w h).1 (sort text_le (t ∷ ts), refl)

text-IsShaped :
    (allowed : Option (List String)) (v w : Json) → check_text allowed v ≡ normal w → IsShaped w
text-IsShaped allowed (str s) w h = elim (Bool-cases (strip s == "")) [
  | inl y ↦ refuses (rw y at h)
  | inr n ↦ subst IsShaped (word_value allowed (strip s) w (rw n at h)) tt
]
text-IsShaped allowed null w h = refuses h
text-IsShaped allowed (bool b) w h = refuses h
text-IsShaped allowed (int z) w h = refuses h
text-IsShaped allowed (arr xs) w h = refuses h
text-IsShaped allowed (obj d) w h = refuses h

normal-IsShaped : (k : Kind) (v : Json) → check_field k v ≡ normal v → IsShaped v
unfolding check_field check_items
normal-IsShaped texts (arr xs) h = items-IsShaped (stripped_texts xs) (arr xs) h
normal-IsShaped texts null h = refuses h
normal-IsShaped texts (bool b) h = refuses h
normal-IsShaped texts (int z) h = refuses h
normal-IsShaped texts (str s) h = refuses h
normal-IsShaped texts (obj d) h = refuses h
normal-IsShaped flag (bool b) h = tt
normal-IsShaped flag null h = refuses h
normal-IsShaped flag (int z) h = refuses h
normal-IsShaped flag (str s) h = refuses h
normal-IsShaped flag (arr xs) h = refuses h
normal-IsShaped flag (obj d) h = refuses h
normal-IsShaped text v h = text-IsShaped none v v h
normal-IsShaped (one_of allowed) v h = text-IsShaped (some allowed) v v h

same_normal :
    (k : Kind) (v w : Json)
    → check_field k v ≡ normal v
    → check_field k w ≡ normal w
    → same_value v w ≡ true
    → v ≡ w
same_normal k v w hv hw = same_shaped v w (normal-IsShaped k v hv) (normal-IsShaped k w hw)

same_as_itself : (k : Kind) (v : Json) → check_field k v ≡ normal v → same_value v v ≡ true
same_as_itself k v h = same_itself v (normal-IsShaped k v h)

no_items : {X : Type 0} {x : Json} {xs : Items} → cons x xs ≡ nil → X
no_items h = cc

some_items : {xs ys : Items} → some xs ≡ some ys → xs ≡ ys
some_items h = cc

abbrev Comparison : Type 0
Comparison = Option (Option Fields × Items)

abbrev pair_of : Comparison → Option Fields × Items
pair_of none = (none, nil)
pair_of (some r) = r

value_of : {d e : Fields} → some d ≡ some e → d ≡ e
value_of h = cc

module _ (repr : String → String) (repr_json : Json → String) where
  with_mismatch-nil :
      (name : String) (v w : Json) (rest : Items)
      → with_mismatch repr repr_json name v w rest ≡ nil
      → (same_value v w ≡ true) × (rest ≡ nil)
  with_mismatch-nil name v w rest h = elim (Bool-cases (same_value v w)) [
    | inl y ↦ (y, rw y at h)
    | inr n ↦ no_items (rw n at h)
  ]

  mismatches-nine :
      (m n : Fields)
      → IsNine m
      → IsNine n
      → mismatches repr repr_json intent_fields m n ≡ some nil
      → m ≡ n
  unfolding mismatches Json.get
  mismatches-nine m n p q h =
      let k : mismatches repr repr_json intent_fields
            (nine p.source_classes p.target_classes p.source_role p.target_role p.graph_scope
              p.direction p.quantifier p.negated p.output_obligations)
            (nine q.source_classes q.target_classes q.source_role q.target_role q.graph_scope
              q.direction q.quantifier q.negated q.output_obligations)
          ≡ some nil =
        subst
          (λ x.
            mismatches repr repr_json intent_fields x (
              nine q.source_classes q.target_classes q.source_role q.target_role q.graph_scope
                q.direction q.quantifier q.negated q.output_obligations)
            ≡ some nil)
          p.is_nine
          (subst (λ x. mismatches repr repr_json intent_fields m x ≡ some nil) q.is_nine h) in
      let (s0, r0) =
        with_mismatch-nil "source_classes" p.source_classes q.source_classes _ (some_items k) in
      let (s1, r1) = with_mismatch-nil "target_classes" p.target_classes q.target_classes _ (r0) in
      let (s2, r2) = with_mismatch-nil "source_role" p.source_role q.source_role _ (r1) in
      let (s3, r3) = with_mismatch-nil "target_role" p.target_role q.target_role _ (r2) in
      let (s4, r4) = with_mismatch-nil "graph_scope" p.graph_scope q.graph_scope _ (r3) in
      let (s5, r5) = with_mismatch-nil "direction" p.direction q.direction _ (r4) in
      let (s6, r6) = with_mismatch-nil "quantifier" p.quantifier q.quantifier _ (r5) in
      let (s7, r7) = with_mismatch-nil "negated" p.negated q.negated _ (r6) in
      let (s8, r8) =
        with_mismatch-nil "output_obligations" p.output_obligations q.output_obligations _ (r7) in
      p.is_nine
      ∙ (λ i.
          nine
            (same_normal _ p.source_classes q.source_classes p.source_classes_normal
              q.source_classes_normal s0 i)
            (same_normal _ p.target_classes q.target_classes p.target_classes_normal
              q.target_classes_normal s1 i)
            (same_normal _ p.source_role q.source_role p.source_role_normal q.source_role_normal s2
              i)
            (same_normal _ p.target_role q.target_role p.target_role_normal q.target_role_normal s3
              i)
            (same_normal _ p.graph_scope q.graph_scope p.graph_scope_normal q.graph_scope_normal s4
              i)
            (same_normal _ p.direction q.direction p.direction_normal q.direction_normal s5 i)
            (same_normal _ p.quantifier q.quantifier p.quantifier_normal q.quantifier_normal s6 i)
            (same_normal _ p.negated q.negated p.negated_normal q.negated_normal s7 i)
            (same_normal _ p.output_obligations q.output_obligations p.output_obligations_normal
              q.output_obligations_normal s8 i))
      ∙ sym q.is_nine

  mismatches_none : (n : Fields) → IsNine n → mismatches repr repr_json intent_fields n n ≡ some nil
  unfolding mismatches Json.get
  mismatches_none n p =
      subst (λ x. mismatches repr repr_json intent_fields x x ≡ some nil) (sym p.is_nine)
        (rw
          (
            same_as_itself _ p.source_classes p.source_classes_normal,
            same_as_itself _ p.target_classes p.target_classes_normal,
            same_as_itself _ p.source_role p.source_role_normal,
            same_as_itself _ p.target_role p.target_role_normal,
            same_as_itself _ p.graph_scope p.graph_scope_normal,
            same_as_itself _ p.direction p.direction_normal,
            same_as_itself _ p.quantifier p.quantifier_normal,
            same_as_itself _ p.negated p.negated_normal,
            same_as_itself _ p.output_obligations p.output_obligations_normal,
          )
          refl)

  no_comparison :
      {X : Type 0} {xs ys : Items} {m : Fields}
      → ◌≡◌ {A = Comparison} (some (none, xs)) (some (some m, ys))
      → X
  no_comparison h = cc

  -- What a comparison without diagnostics comes from.
  abbrev IsFound : Fields → Fields → Option Fields × Items → Type 0
  IsFound requested m r =
      (r ≡ (some m, nil)) × (mismatches repr repr_json intent_fields requested m ≡ some nil)

  found_in-IsFound :
      (requested e m : Fields) (o : Option Items)
      → mismatches repr repr_json intent_fields requested e ≡ o
      → found_in repr repr_json e o ≡ some (some m, nil)
      → IsFound requested m (some e, nil)
  found_in-IsFound requested e m none at h = cc
  found_in-IsFound requested e m (some xs) at h =
      let here : e ≡ m = value_of (ap (λ r. (pair_of r).0) h) in
      let empty : xs ≡ nil = ap (λ r. (pair_of r).1) h in
      (
        ap (λ x. (some x, nil)) here,
        subst (λ x. mismatches repr repr_json intent_fields requested x ≡ some nil) here
            (at ∙ ap some empty),
      )

  compare_normalized-IsFound :
      (requested m : Fields) (r : Option Fields × Items)
      → compare_normalized repr repr_json requested r ≡ some (some m, nil)
      → IsFound requested m r
  unfolding compare_normalized
  compare_normalized-IsFound requested m (none, xs) h = no_comparison h
  compare_normalized-IsFound requested m (some e, cons x xs) h = no_comparison h
  compare_normalized-IsFound requested m (some e, nil) h =
      found_in-IsFound requested e m (mismatches repr repr_json intent_fields requested e) refl h

  -- Where the requested intent is a normalized one, the comparison finds no difference exactly
  -- where the encoded one normalizes to it.
  pub compare_structured_intents_iff :
      (value : Json) (requested : Fields) (encoded : Json) (m : Fields)
      → normalize_structured_intent repr value ≡ (some requested, nil)
      → (compare_structured_intents repr repr_json requested encoded ≡ some (some m, nil))
        ↔ ((normalize_structured_intent repr encoded ≡ (some requested, nil)) × (m ≡ requested))
  unfolding compare_structured_intents compare_normalized
  compare_structured_intents_iff value requested encoded m h =
      let p = normalized-IsNine repr value requested h in
      (
        λ e.
            let (r, none_missed) =
              compare_normalized-IsFound requested m (normalize_structured_intent repr encoded) e in
            let q = normalized-IsNine repr encoded m r in
            let same = mismatches-nine requested m p q none_missed in
            (r ∙ ap (λ x. (some x, nil)) (sym same), sym same),
        λ (r, same).
            ap (compare_normalized repr repr_json requested) r
            ∙ ap (found_in repr repr_json requested) (mismatches_none requested p)
            ∙ ap (λ x. some (some x, nil)) (sym same),
      )
