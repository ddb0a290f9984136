-- ===== src/Intent/Canonical.antt =====
-- The values that `normalize_structured_intent` of qa/structured_intent.py gives its fields are
-- their own normal forms.
use mathlib.Core.Path.{subst}
use dexpi_datalog.Prelude.{
  String, ◌≡◌, refl, sym, ap, ◌∙◌, inl, inr, true, false, Option, none, some, List, [], ◌∷◌, ◌==◌,
  string_eq, nat_eq, contains, length, map, In, Bool-cases, Option-cases, ==_refl,
}
use dexpi_datalog.Prelude.Text.{strip}
use dexpi_datalog.Prelude.Sort.{sort, text_le, text_le_total, In-sort}
use dexpi_datalog.Prelude.Ordered.{sort-IsOrdered, sort_ordered}
use dexpi_datalog.Prelude.Strip.{strip_again}
use dexpi_datalog.Prelude.Sets.{
  distinct, IsDistinct, length-IsDistinct, distinct_same, sort-IsDistinct,
}
use dexpi_datalog.Json.{Json, null, bool, int, str, arr, obj, Items, nil, cons, to_items}
use dexpi_datalog.Intent.{
  Kind, texts, flag, text, one_of, normal, requires, stripped_texts, to_texts, check_distinct,
  check_items, check_word, check_text, check_field,
}

abbrev IsStripped : String → Type 0
IsStripped t = (strip t ≡ t) × ((t == "") ≡ false)

pub refuses : {X : Type 0} {what : String} {w : Json} → requires what ≡ normal w → X
refuses h = cc

pub normal_injective : {v w : Json} → normal v ≡ normal w → v ≡ w
normal_injective h = cc

no_texts : {X : Type 0} {ts : List String} → ◌≡◌ {A = Option (List String)} none (some ts) → X
no_texts h = cc

some_texts : {ss ts : List String} → some ss ≡ some ts → ss ≡ ts
some_texts h = cc

strip-IsStripped : (s : String) → (strip s == "") ≡ false → IsStripped (strip s)
strip-IsStripped s h = (strip_again s, h)

stripped_texts-IsStripped :
    (xs : Items) (ts : List String)
    → stripped_texts xs ≡ some ts
    → (t : String) → In t ts
    → IsStripped t
stripped_texts-IsStripped nil ts h t m = absurd (subst (In t) (sym (some_texts h)) m)
stripped_texts-IsStripped (cons (str s) xs) ts h t m = elim (Bool-cases (strip s == "")) [
  | inl y ↦ no_texts (rw y at h)
  | inr n ↦ elim (Option-cases (stripped_texts xs)) [
    | inl e ↦ no_texts (rw (n, e) at h)
    | inr (rest, e) ↦
        let same : strip s ∷ rest ≡ ts = some_texts (rw (n, e) at h) in
        let here : In t (strip s ∷ rest) = subst (In t) (sym same) m in
        elim here [
          | inl at ↦ subst IsStripped (sym at) (strip-IsStripped s n)
          | inr k ↦ stripped_texts-IsStripped xs rest e t k
        ]
  ]
]
stripped_texts-IsStripped (cons null xs) ts h t m = no_texts h
stripped_texts-IsStripped (cons (bool b) xs) ts h t m = no_texts h
stripped_texts-IsStripped (cons (int z) xs) ts h t m = no_texts h
stripped_texts-IsStripped (cons (arr ys) xs) ts h t m = no_texts h
stripped_texts-IsStripped (cons (obj d) xs) ts h t m = no_texts h

stripped_texts_back :
    (ts : List String)
    → ((t : String) → In t ts → IsStripped t)
    → stripped_texts (to_items (map str ts)) ≡ some ts
stripped_texts_back [] h = refl
stripped_texts_back (t ∷ ts) h =
    let own = h t (inl refl) in
    let rest = stripped_texts_back ts (λ s m. h s (inr m)) in
    let bare : (strip t == "") ≡ false = rw own.0 own.1 in rw bare (rw rest (rw own.0))

check_items_nonempty :
    (ts : List String) (t : String) → In t ts → check_items (some ts) ≡ check_distinct ts
unfolding check_items
check_items_nonempty [] t m = absurd m
check_items_nonempty (u ∷ ts) t m = refl

-- Distinct texts in order are accepted as they are.
check_distinct_back :
    (ts : List String)
    → IsDistinct ts
    → sort text_le ts ≡ ts
    → check_distinct ts ≡ normal (to_texts ts)
unfolding check_distinct
check_distinct_back ts d o =
    let same : (length (distinct ts) == length ts) ≡ true =
      rw (distinct_same ts d) (==_refl (length ts)) in
    rw same (ap (λ l. normal (to_texts l)) o)

pub distinct_value :
    (ts : List String) (w : Json)
    → check_distinct ts ≡ normal w
    → IsDistinct ts × (to_texts (sort text_le ts) ≡ w)
unfolding check_distinct
distinct_value ts w h = elim (Bool-cases (length (distinct ts) == length ts)) [
  | inr n ↦ refuses (rw n at h)
  | inl y ↦ (
    length-IsDistinct ts ((nat_eq.equals_iff (length (distinct ts)) (length ts)).0 y),
    normal_injective (rw y at h),
  )
]

abbrev IsNormalOf : Kind → Json → Type 0
IsNormalOf k w = check_field k w ≡ normal w

items_back :
    (ts : List String)
    → ((t : String) → In t ts → IsStripped t)
    → (w : Json) → check_items (some ts) ≡ normal w
    → IsNormalOf texts w
unfolding check_items check_field
items_back [] stripped w h = refuses h
items_back (t ∷ ts) stripped w h =
    let all = t ∷ ts in
    let ss = sort text_le all in
    let (d, at) = distinct_value all w h in
    let inside = λ (s : String). In-sort text_le s all in
    let back = stripped_texts_back ss (λ s m. stripped s ((inside s).0 m)) in
    let ordered = sort_ordered text_le ss (sort-IsOrdered text_le text_le_total all) in
    subst (IsNormalOf texts) at (
      ap check_items back
      ∙ check_items_nonempty ss t ((inside t).1 (inl refl))
      ∙ check_distinct_back ss (sort-IsDistinct text_le all d) ordered)

texts_back :
    (xs : Items) (w : Json) → check_items (stripped_texts xs) ≡ normal w → IsNormalOf texts w
unfolding check_items
texts_back xs w h = elim (Option-cases (stripped_texts xs)) [
  | inl e ↦ refuses (ap check_items (sym e) ∙ h)
  | inr (ts, e) ↦ items_back ts (stripped_texts-IsStripped xs ts e) w (ap check_items (sym e) ∙ h)
]

pub word_value :
    (allowed : Option (List String)) (c : String) (w : Json)
    → check_word allowed c ≡ normal w
    → str c ≡ w
word_value none c w h = normal_injective h
word_value (some allowed) c w h = elim (Bool-cases (contains allowed c)) [
  | inl y ↦ normal_injective (rw y at h)
  | inr n ↦ refuses (rw n at h)
]

text_back :
    (allowed : Option (List String)) (v w : Json)
    → check_text allowed v ≡ normal w
    → check_text allowed w ≡ normal w
text_back allowed (str s) w h = elim (Bool-cases (strip s == "")) [
  | inl y ↦ refuses (rw y at h)
  | inr n ↦
      let word : check_word allowed (strip s) ≡ normal w = rw n at h in
      let at = word_value allowed (strip s) w word in
      let same : check_text allowed (str (strip s)) ≡ check_word allowed (strip s) =
        rw (strip_again s) (rw n) in
      subst (λ x. check_text allowed x ≡ normal w) at (same ∙ word)
]
text_back allowed null w h = refuses h
text_back allowed (bool b) w h = refuses h
text_back allowed (int z) w h = refuses h
text_back allowed (arr xs) w h = refuses h
text_back allowed (obj d) w h = refuses h

-- What a field is normalized to is its own normal form.
pub check_field_again :
    (k : Kind) (v w : Json) → check_field k v ≡ normal w → check_field k w ≡ normal w
unfolding check_field
check_field_again texts (arr xs) w h = texts_back xs w h
check_field_again texts null w h = refuses h
check_field_again texts (bool b) w h = refuses h
check_field_again texts (int z) w h = refuses h
check_field_again texts (str s) w h = refuses h
check_field_again texts (obj d) w h = refuses h
check_field_again flag (bool b) w h =
    subst (λ x. check_field flag x ≡ normal x) (normal_injective h) refl
check_field_again flag null w h = refuses h
check_field_again flag (int z) w h = refuses h
check_field_again flag (str s) w h = refuses h
check_field_again flag (arr xs) w h = refuses h
check_field_again flag (obj d) w h = refuses h
check_field_again text v w h = text_back none v w h
check_field_again (one_of allowed) v w h = text_back (some allowed) v w h
