-- ===== src/Gate/Confirming.antt =====
-- Which model reviews let the gate pass.
use text.Mathlib.TextEquality.{eq_iff}
use dexpi_datalog.Prelude.{
  String, ◌≡◌, ◌≢◌, refl, sym, ap, ◌∙◌, ◌↔◌, inl, inr, Bool, true, false, Option, none, some, List,
  ◌==◌, string_eq, contains, Bool-cases,
}
use dexpi_datalog.Prelude.Text.{is_blank}
use dexpi_datalog.Json
use dexpi_datalog.Json.{Json, null, str, arr, obj, bool, int, Items, nil, cons, Fields, end, field}
use dexpi_datalog.Gate.Layers.{value_at, in_set}
use dexpi_datalog.Gate.Review.{
  review_texts, cons_text, texts, agreed, disagreed, compared, with_texts, with_status,
  review_statuses, model_review_layer,
}
use dexpi_datalog.Gate.Status.{tested, accepted}

impossible : {X : Type 0} → ◌≡◌ {A = Bool} false true → X
impossible h = cc

faithful-nil : (ds : Items) (n : Fields) → accepted (agreed (str "faithful") ds n) ≡ true → ds ≡ nil
unfolding agreed Json.get
faithful-nil nil n h = refl
faithful-nil (cons x xs) n h = impossible h

agreed-accepted :
    (s : String) (ds : Items) (n : Fields)
    → contains review_statuses s ≡ true
    → accepted (agreed (str s) ds n) ≡ true
    → (str s ≡ str "faithful") × (ds ≡ nil)
unfolding agreed Json.get
agreed-accepted s ds n known h = elim (Bool-cases ("faithful" == s)) [
  | inl e ↦ let q = (eq_iff "faithful" s).0 e in (ap str (sym q), faithful-nil ds n (rw (← q) at h))
  | inr e ↦ elim (Bool-cases ("uncertain" == s)) [
    | inl u ↦ impossible (rw (e, u) at h)
    | inr u ↦ elim (Bool-cases ("unfaithful" == s)) [
      | inl w ↦ impossible (rw (e, u, w) at h)
      | inr w ↦ impossible (rw (e, u, w) at known)
    ]
  ]
]

cons_text-nil : (s : String) (o : Option Items) → cons_text s o ≢ some nil
cons_text-nil s none h = cc
cons_text-nil s (some xs) h = cc

texts-nil : (v : Json) → review_texts v ≡ some nil → v ≡ arr nil
unfolding review_texts
texts-nil (arr nil) h = refl
texts-nil (arr (cons (str s) xs)) h = elim (Bool-cases (is_blank s)) [
  | inl e ↦ cc (rw e at h)
  | inr e ↦ absurd (cons_text-nil s (texts xs) (rw e at h))
]
texts-nil (arr (cons null xs)) h = cc
texts-nil (arr (cons (bool b) xs)) h = cc
texts-nil (arr (cons (int n) xs)) h = cc
texts-nil (arr (cons (arr ys) xs)) h = cc
texts-nil (arr (cons (obj d) xs)) h = cc
texts-nil (str s) h = cc
texts-nil null h = cc
texts-nil (bool b) h = cc
texts-nil (int n) h = cc
texts-nil (obj d) h = cc

disagreed-accepted :
    (status : Json) (ds : Items) (n : Option Fields) (c : Items)
    → accepted (disagreed status ds n c) ≡ false
unfolding disagreed Json.get
disagreed-accepted status ds n c = refl

status-text :
    (v : Json) (set : List String)
    → in_set v set ≡ some true
    → (s : String) × (v ≡ str s) × (contains set s ≡ true)
status-text (str s) set h = (s, refl, cc)
status-text null set h = cc
status-text (bool b) set h = cc
status-text (int n) set h = cc
status-text (arr xs) set h = cc
status-text (obj d) set h = cc

module _ (cmp : Fields → Json → Option Fields × Items) where
  -- A review that confirms the request: it claims faithfulness without a diagnostic, and its
  -- back-translation compares equal.
  pub record IsConfirming (requested : Option Fields) (review : Fields) : Type 0 where
    pub intent : Fields
    pub asked : requested ≡ some intent
    pub claimed : value_at "status" review ≡ str "faithful"
    pub unqualified : value_at "diagnostics" review ≡ arr nil
    pub normalized : Fields
    pub equal : cmp intent (value_at "back_translated_intent" review) ≡ (some normalized, nil)

  abbrev pub IsUnopposed : Option Fields → Json → Type 0
  IsUnopposed requested null = Unit
  IsUnopposed requested (obj review) = IsConfirming requested review
  IsUnopposed requested _ = ⊥

  compared-accepted :
      (v : Json) (ds : Items) (p : Option Fields × Items)
      → in_set v review_statuses ≡ some true
      → accepted (compared v ds p) ≡ true
      → (v ≡ str "faithful") × (ds ≡ nil) × (n : Fields) × (p ≡ (some n, nil))
  compared-accepted v ds (some n, nil) known h =
      let (s, e, k) = status-text v review_statuses known in
      let (q, t) = agreed-accepted s ds n k (rw e at h) in (e ∙ q, t, n, refl)
  compared-accepted v ds (some n, cons x xs) known h =
      cc (disagreed-accepted v ds (some n) (cons x xs))
  compared-accepted v ds (none, c) known h = cc (disagreed-accepted v ds none c)

  texts-accepted :
      (r : Option Fields) (review : Fields) (o : Option Items)
      → in_set (value_at "status" review) review_statuses ≡ some true
      → review_texts (value_at "diagnostics" review) ≡ o
      → accepted (with_texts cmp r review o) ≡ true
      → IsConfirming r review
  unfolding Json.get
  texts-accepted r review none known e h = impossible h
  texts-accepted none review (some ds) known e h = impossible h
  texts-accepted (some intent) review (some ds) known e h =
      let (q, t, n, p) =
        compared-accepted (value_at "status" review) ds
          (cmp intent (value_at "back_translated_intent" review)) known h in
      record {
        intent = intent;
        asked = refl;
        claimed = q;
        unqualified = texts-nil (value_at "diagnostics" review) (e ∙ ap some t);
        normalized = n;
        equal = p;
      }

  status-accepted :
      (r : Option Fields) (review : Fields) (b : Option Bool)
      → in_set (value_at "status" review) review_statuses ≡ b
      → tested accepted (with_status cmp r review b) ≡ true
      → IsConfirming r review
  unfolding Json.get
  status-accepted r review none e h = cc
  status-accepted r review (some false) e h = impossible h
  status-accepted r review (some true) e h =
      texts-accepted r review (review_texts (value_at "diagnostics" review)) e refl h

  pub review-status :
      (r : Option Fields) (review : Json)
      → (tested accepted (model_review_layer cmp r review) ≡ true) ↔ IsUnopposed r review
  unfolding model_review_layer review_texts agreed Json.get
  review-status r null = (λ h. tt, λ h. refl)
  review-status r (obj d) = (
    λ h. status-accepted r d _ refl h,
    λ c. rw (c.claimed, c.unqualified, c.asked, c.equal) (rw c.claimed),
  )
  review-status r (bool b) = (λ h. cc, λ h. absurd h)
  review-status r (int n) = (λ h. cc, λ h. absurd h)
  review-status r (str s) = (λ h. cc, λ h. absurd h)
  review-status r (arr xs) = (λ h. cc, λ h. absurd h)
