-- ===== src/Routes/Sound.antt =====
-- What the receipts on record satisfy, and that each method keeps it.
use text.Mathlib.TextEquality.{eq_iff}
use dexpi_datalog.Prelude.{
  String, ◌≡◌, refl, sym, ◌∙◌, inl, inr, true, Option, none, some, ◌&&◌, arith, ◌==◌, string_eq,
  contains, Bool-cases, Option-cases,
}
use dexpi_datalog.Prelude.Dict
use dexpi_datalog.Prelude.Dict.{Dict, get-put}
use dexpi_datalog.Json
use dexpi_datalog.Json.{Json, str, Items, Fields}
use dexpi_datalog.Routes.Defs.{
  RouteContext, ReceiptFields, RouteReceipt, receipt_eligible_outcomes, Library, compare_digest,
  sign_receipt_fields, is_ascii, context_eq,
}
use dexpi_datalog.Routes.Authority.{
  Authority, new_authority, claimed, fits_context, activate, restore_checked, restore_for, entered,
  request_context, begin_request, issue, issue_normalized, issue_structured, inactive,
  record_backend_outcome, current_only, active_receipt,
}

module _ (lib : Library) where
  -- A receipt that the authority signed, with an outcome that earns one, for one context.
  pub record IsGenuine (r : RouteReceipt) (c : RouteContext) : Type 0 where
    pub signed : r.signature ≡ sign_receipt_fields lib r.fields
    pub eligible : contains receipt_eligible_outcomes r.fields.route_outcome ≡ true
    pub for_intent : r.fields.intent_digest ≡ lib.sha256_hex c.normalized_intent
    pub for_source : r.fields.source_snapshot_id ≡ c.source_snapshot_id
    pub for_catalog : r.fields.template_catalog_version ≡ c.template_catalog_version
    pub for_policy : r.fields.policy_version ≡ c.policy_version

  -- every receipt on record is genuine for the context beside it
  pub record IsSound (a : Authority) : Type 0 where
    pub genuine :
        (id : String) (r : RouteReceipt) (c : RouteContext)
        → Dict.get id a.receipts ≡ some (r, c)
        → IsGenuine r c

  pub new-IsSound : IsSound new_authority
  unfolding Dict.get
  new-IsSound = record { genuine = λ id r c h. cc }

  fits-IsGenuine :
      (f : ReceiptFields) (signature : String) (c : RouteContext)
      → fits_context lib f c ≡ true
      → signature ≡ sign_receipt_fields lib f
      → IsGenuine (record { fields = f; signature = signature }) c
  fits-IsGenuine f signature c h s = record {
    signed = s;
    eligible = ground arith;
    for_intent = ground (arith, eq_iff f.intent_digest (lib.sha256_hex c.normalized_intent));
    for_source = ground (arith, eq_iff f.source_snapshot_id c.source_snapshot_id);
    for_catalog = ground (arith, eq_iff f.template_catalog_version c.template_catalog_version);
    for_policy = ground (arith, eq_iff f.policy_version c.policy_version);
  }

  pair_injective :
      (r q : RouteReceipt) (c d : RouteContext)
      → ◌≡◌ {A = Option (RouteReceipt × RouteContext)} (some (r, c)) (some (q, d))
      → (r ≡ q) × (c ≡ d)
  pair_injective r q c d h = (cc, cc)

  activate-IsSound :
      (a : Authority) (r : RouteReceipt) (c : RouteContext)
      → IsSound a
      → IsGenuine r c
      → IsSound (activate lib a r c)
  activate-IsSound a r c v g = record {
    genuine = λ id q d h.
        let new = r.fields.receipt_id in
        let there = sym (get-put new id (r, c) a.receipts) ∙ h in
        elim (Bool-cases (new == id)) [
          | inl same ↦ let (e, f) = pair_injective r q c d (rw same at there) in rw (← e, ← f) g
          | inr other ↦ v.genuine id q d (rw other at there)
        ];
  }

  checked-IsSound :
      (a : Authority) (r : RouteReceipt) (c : RouteContext)
      → IsSound a
      → (r.signature ≡ sign_receipt_fields lib r.fields → IsGenuine r c)
      → IsSound
          (restore_checked lib a r c
            (compare_digest r.signature (sign_receipt_fields lib r.fields))).0
  unfolding compare_digest
  checked-IsSound a r c v g =
      let s = r.signature in
      let t = sign_receipt_fields lib r.fields in
      elim (Bool-cases (is_ascii s && is_ascii t)) [
        | inr no' ↦ rw no' v
        | inl yes' ↦ elim (Bool-cases (s == t)) [
          | inr differ ↦ rw (yes', differ) v
          | inl same ↦ rw (yes', same) (activate-IsSound a r c v (g ((eq_iff s t).0 same)))
        ]
      ]

  restore-IsSound :
      (a : Authority) (d : Fields) (o : Option RouteContext)
      → IsSound a
      → IsSound (restore_for lib a d o).0
  restore-IsSound a d none v = v
  restore-IsSound a d (some c) v =
      let f = claimed lib d in
      let signature = lib.to_str (Json.get_or "signature" (str "") d) in
      elim (Bool-cases (fits_context lib f c)) [
        | inr no' ↦ rw no' v
        | inl fits ↦ rw fits (
            checked-IsSound a (record { fields = f; signature = signature }) c v
              (fits-IsGenuine f signature c fits))
      ]

  pub begin-IsSound :
      (a : Authority) (intent snapshot catalog policy : String) (resume : Option Fields)
      → IsSound a
      → IsSound (begin_request lib a intent snapshot catalog policy resume).0
  unfolding begin_request
  begin-IsSound a intent snapshot catalog policy none v = record { genuine = v.genuine }
  begin-IsSound a intent snapshot catalog policy (some d) v =
      let c = request_context lib intent snapshot catalog policy in
      restore-IsSound (entered lib a c) d (some c) (record { genuine = v.genuine })

  issue-IsSound :
      (a : Authority) (token outcome : String) (c : RouteContext) (intent : Option Fields)
      → IsSound a
      → contains receipt_eligible_outcomes outcome ≡ true
      → IsSound (issue lib a token outcome c intent).0
  issue-IsSound a token outcome c intent v h = activate-IsSound a _ c v (record {
    signed = refl;
    eligible = h;
    for_intent = refl;
    for_source = refl;
    for_catalog = refl;
    for_policy = refl;
  })

  inactive-IsSound : (a : Authority) → IsSound a → IsSound (inactive lib a)
  inactive-IsSound a v = record { genuine = v.genuine }

  issue_normalized-IsSound :
      (a : Authority) (token outcome : String) (c : RouteContext) (n : Option Fields × Items)
      → IsSound a
      → contains receipt_eligible_outcomes outcome ≡ true
      → IsSound (issue_normalized lib a token outcome c n).0
  issue_normalized-IsSound a token outcome c (intent, Items.nil) v h =
      issue-IsSound a token outcome c intent v h
  issue_normalized-IsSound a token outcome c (intent, Items.cons x xs) v h = inactive-IsSound a v

  structured-IsSound :
      (a : Authority) (token outcome : String) (c : RouteContext) (structured : Option Fields)
      → IsSound a
      → contains receipt_eligible_outcomes outcome ≡ true
      → IsSound (issue_structured lib a token outcome c structured).0
  structured-IsSound a token outcome c none v h = issue-IsSound a token outcome c none v h
  structured-IsSound a token outcome c (some d) v h =
      issue_normalized-IsSound a token outcome c (lib.normalize_intent (Json.obj d)) v h

  pub record-IsSound :
      (a : Authority) (token outcome : String) (structured : Option Fields)
      → IsSound a
      → IsSound (record_backend_outcome lib a token outcome structured).0
  unfolding record_backend_outcome
  record-IsSound a token outcome structured v = elim (Option-cases a.context) [
    | inl e ↦ rw (e, record_backend_outcome) v
    | inr (c, e) ↦ elim (Bool-cases (contains receipt_eligible_outcomes outcome)) [
      | inr no' ↦ rw (e, record_backend_outcome) (rw no' (inactive-IsSound a v))
      | inl yes' ↦
          rw (e, record_backend_outcome)
            (rw yes' (structured-IsSound a token outcome c structured v yes'))
    ]
  ]

  current-IsSound :
      (a : Authority) (c : RouteContext) (o : Option (RouteReceipt × RouteContext))
      → IsSound a
      → IsSound (current_only lib a c o).0
  current-IsSound a c none v = v
  current-IsSound a c (some (r, d)) v = elim (Bool-cases (d == c)) [
    | inl same ↦ rw same v
    | inr other ↦ rw other (inactive-IsSound a v)
  ]

  pub active-IsSound : (a : Authority) → IsSound a → IsSound (active_receipt lib a).0
  unfolding active_receipt
  active-IsSound a v = elim (Option-cases a.active_receipt_id) [
    | inl e ↦ rw (e, active_receipt) v
    | inr (id, e) ↦ elim (Option-cases a.context) [
      | inl k ↦ rw (e, k, active_receipt) v
      | inr (c, k) ↦ rw (e, k, active_receipt) (current-IsSound a c (Dict.get id a.receipts) v)
    ]
  ]
