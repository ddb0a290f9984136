-- ===== src/Intent/Fixed.antt =====
-- A normalized intent of qa/structured_intent.py is its own normal form.
use mathlib.Core.Path.{subst}
use dexpi_datalog.Prelude.{String, ◌≡◌, refl, sym, ap, ◌∙◌, Option, none, some, List, [], ◌∷◌}
use dexpi_datalog.Json.{Json, null, bool, int, str, arr, obj, Items, nil, cons, Fields, end, field}
use dexpi_datalog.Json
use dexpi_datalog.Gate.Layers.{value_at, append_items}
use dexpi_datalog.Intent.{
  Kind, texts, flag, text, one_of, field_kinds, Checked, normal, requires, check_field, check_keys,
  with_field, normalize_fields, normalized_if_nil, normalize_structured_intent,
}
use dexpi_datalog.Intent.Canonical.{check_field_again}

no_items : {X : Type 0} {x : Json} {xs : Items} → cons x xs ≡ nil → X
no_items h = cc

both_nil : (xs ys : Items) → append_items xs ys ≡ nil → (xs ≡ nil) × (ys ≡ nil)
both_nil nil ys h = (refl, h)
both_nil (cons x xs) ys h = no_items h

abbrev Result : Type 0
Result = Option Fields × Items

-- The fields of an intent, in the order of the contract, with values that are normal.
abbrev AreNormal : List (String × Kind) → Fields → Type 0
AreNormal [] n = n ≡ end
AreNormal ((name, kind) ∷ rest) n =
    (v : Json) × (d : Fields) × (n ≡ field name v d)
    × (check_field kind v ≡ normal v)
    × AreNormal rest d

abbrev pub nine : Json → Json → Json → Json → Json → Json → Json → Json → Json → Fields
nine a b c d e f g h i = field "source_classes" a (
    field "target_classes" b (
      field "source_role" c (
        field "target_role" d (
          field "graph_scope" e (
            field "direction" f
              (field "quantifier" g (field "negated" h (field "output_obligations" i end))))))))

-- The nine values of a normalized intent.
pub record IsNine (n : Fields) : Type 0 where
  pub source_classes : Json
  pub target_classes : Json
  pub source_role : Json
  pub target_role : Json
  pub graph_scope : Json
  pub direction : Json
  pub quantifier : Json
  pub negated : Json
  pub output_obligations : Json
  pub is_nine :
      n
      ≡ nine source_classes target_classes source_role target_role graph_scope direction quantifier
          negated output_obligations
  pub source_classes_normal : check_field (texts) source_classes ≡ normal source_classes
  pub target_classes_normal : check_field (texts) target_classes ≡ normal target_classes
  pub source_role_normal : check_field (text) source_role ≡ normal source_role
  pub target_role_normal : check_field (text) target_role ≡ normal target_role
  pub graph_scope_normal :
      check_field
        (one_of ("all_topology" ∷ "instrumentation_inclusive" ∷ "piping_only" ∷ []))
        graph_scope
      ≡ normal graph_scope
  pub direction_normal :
      check_field (one_of ("directed" ∷ "undirected" ∷ [])) direction ≡ normal direction
  pub quantifier_normal : check_field (one_of ("all" ∷ "any" ∷ [])) quantifier ≡ normal quantifier
  pub negated_normal : check_field (flag) negated ≡ normal negated
  pub output_obligations_normal : check_field (texts) output_obligations ≡ normal output_obligations

AreNormal-IsNine : (n : Fields) → AreNormal field_kinds n → IsNine n
AreNormal-IsNine n (a, n1, e1, ca, p1) =
    let (b, n2, e2, cb, p2) = p1 in
    let (c, n3, e3, cc', p3) = p2 in
    let (d, n4, e4, cd, p4) = p3 in
    let (e, n5, e5, ce, p5) = p4 in
    let (f, n6, e6, cf, p6) = p5 in
    let (g, n7, e7, cg, p7) = p6 in
    let (h, n8, e8, ch, p8) = p7 in
    let (i, n9, e9, ci, p9) = p8 in
    let at : n ≡ nine a b c d e f g h i =
      e1
      ∙ ap (field "source_classes" a) (
          e2
          ∙ ap (field "target_classes" b) (
              e3
              ∙ ap (field "source_role" c) (
                  e4
                  ∙ ap (field "target_role" d) (
                      e5
                      ∙ ap (field "graph_scope" e) (
                          e6
                          ∙ ap (field "direction" f) (
                              e7
                              ∙ ap (field "quantifier" g) (
                                  e8
                                  ∙ ap (field "negated" h)
                                      (e9 ∙ ap (field "output_obligations" i) p9)))))))) in
    record {
      is_nine = at;
      source_classes = a;
      source_classes_normal = ca;
      target_classes = b;
      target_classes_normal = cb;
      source_role = c;
      source_role_normal = cc';
      target_role = d;
      target_role_normal = cd;
      graph_scope = e;
      graph_scope_normal = ce;
      direction = f;
      direction_normal = cf;
      quantifier = g;
      quantifier_normal = cg;
      negated = h;
      negated_normal = ch;
      output_obligations = i;
      output_obligations_normal = ci;
    }

module _ (repr : String → String) where
  with_field-nil :
      (name : String) (raw : Json) (c : Checked) (p : Fields × Items)
      → (with_field repr name raw c p).1 ≡ nil
      → (v : Json) × (c ≡ normal v)
        × (p.1 ≡ nil)
        × ((with_field repr name raw c p).0 ≡ field name v p.0)
  with_field-nil name raw (normal v) (d, xs) h = (v, refl, h, refl)
  with_field-nil name raw (requires what) (d, xs) h = no_items h

  normalize_fields-AreNormal :
      (specs : List (String × Kind)) (value : Fields)
      → (normalize_fields repr specs value).1 ≡ nil
      → AreNormal specs (normalize_fields repr specs value).0
  unfolding normalize_fields
  normalize_fields-AreNormal [] value h = refl
  normalize_fields-AreNormal ((name, kind) ∷ rest) value h =
      let raw = value_at name value in
      let loop = normalize_fields repr rest value in
      let (v, c, empty, at) = with_field-nil name raw (check_field kind raw) loop h in
      (v, loop.0, at, check_field_again kind raw v c, normalize_fields-AreNormal rest value empty)

  nine_normal : (n : Fields) → IsNine n → normalize_structured_intent repr (obj n) ≡ (some n, nil)
  unfolding normalize_structured_intent Json.get
  nine_normal n p =
      subst (λ x. normalize_structured_intent repr (obj x) ≡ (some x, nil)) (sym p.is_nine)
        (rw (
          p.source_classes_normal, p.target_classes_normal, p.source_role_normal,
          p.target_role_normal, p.graph_scope_normal, p.direction_normal, p.quantifier_normal,
          p.negated_normal, p.output_obligations_normal,
        ))

  no_intent : {X : Type 0} {xs : Items} {n : Fields} → ◌≡◌ {A = Result} (none, xs) (some n, nil) → X
  no_intent h = no_value (ap (λ (r : Result). r.0) h)
    where
      no_value : {X : Type 0} {n : Fields} → ◌≡◌ {A = Option Fields} none (some n) → X
      no_value h = cc

  normalized_value :
      (d n : Fields) (xs : Items)
      → normalized_if_nil repr d xs ≡ (some n, nil)
      → (xs ≡ nil) × (d ≡ n)
  normalized_value d n nil h = (refl, value (ap (λ (r : Result). r.0) h))
    where
      value : {d n : Fields} → some d ≡ some n → d ≡ n
      value h = cc
  normalized_value d n (cons x xs) h = no_intent h

  -- What is returned without diagnostics has the nine fields, with normal values.
  pub normalized-IsNine :
      (value : Json) (n : Fields)
      → normalize_structured_intent repr value ≡ (some n, nil)
      → IsNine n
  unfolding normalize_structured_intent
  normalized-IsNine (obj value) n h =
      let loop = normalize_fields repr field_kinds value in
      let (empty, same) =
        normalized_value loop.0 n (append_items (check_keys repr value) loop.1) h in
      let (k, l) = both_nil (check_keys repr value) loop.1 empty in
      AreNormal-IsNine n
        (subst (AreNormal field_kinds) same (normalize_fields-AreNormal field_kinds value l))
  normalized-IsNine null n h = no_intent h
  normalized-IsNine (bool b) n h = no_intent h
  normalized-IsNine (int z) n h = no_intent h
  normalized-IsNine (str s) n h = no_intent h
  normalized-IsNine (arr xs) n h = no_intent h

  -- Normalizing an intent that was normalized gives it back: stripped texts, sorted lists without
  -- doubles and the values allowed are accepted as they are, and no key is missing or extra.
  pub normalize_structured_intent_again :
      (value : Json) (n : Fields)
      → normalize_structured_intent repr value ≡ (some n, nil)
      → normalize_structured_intent repr (obj n) ≡ (some n, nil)
  normalize_structured_intent_again value n h = nine_normal n (normalized-IsNine value n h)
