-- ===== src/Routes/Authority.antt =====
-- `RouteReceiptAuthority` of qa/route_receipts.py: each method takes the object's state.
use dexpi_datalog.Prelude.{
  String, Bool, true, false, Option, none, some, [], ◌&&◌, ◌==◌, string_eq, contains, if◌then◌else◌,
}
use dexpi_datalog.Prelude.Dict
use dexpi_datalog.Prelude.Dict.{Dict}
use dexpi_datalog.Json
use dexpi_datalog.Json.{Json, str, obj, Items, nil, cons, Fields}
use dexpi_datalog.Routes.Defs.{
  RouteContext, context_eq, ReceiptFields, RouteReceipt, receipt_eligible_outcomes, Library,
  compare_digest, normalize_semantic_intent, sign_receipt_fields, canonical_intent_json,
}

pub record Authority : Type 0 where
  pub context : Option RouteContext
  pub receipts : Dict String (RouteReceipt × RouteContext)
  pub active_receipt_id : Option String

-- `__init__`
abbrev pub new_authority : Authority
new_authority = record { context = none; receipts = []; active_receipt_id = none }

-- How `begin_request` ends: a TypeError escapes from a signature that is not ASCII.
pub data Ending : Type 0 where
  done type_error : Ending

-- What `record_backend_outcome` returns.
pub data Recorded : Type 0 where
  context_missing outcome_recorded : Recorded
  structured_intent_invalid : Items → Recorded
  receipt_issued : RouteReceipt → Recorded

-- self._context == context
abbrev pub is_context : Option RouteContext → RouteContext → Bool
is_context none c = false
is_context (some d) c = d == c

abbrev is_nil : Items → Bool
is_nil nil = true
is_nil (cons x xs) = false

module _ (lib : Library) where
  open lib use {sha256_hex, loads, to_str, normalize_intent}

  abbrev pub request_context : String → String → String → String → RouteContext
  request_context intent snapshot catalog policy = record {
    normalized_intent = normalize_semantic_intent lib intent;
    source_snapshot_id = snapshot;
    template_catalog_version = catalog;
    policy_version = policy;
  }

  -- the fields that a resumed artifact claims
  abbrev pub claimed : Fields → ReceiptFields
  claimed d =
      let text = λ (name : String). to_str (Json.get_or name (str "") d) in
      record {
        receipt_id = text "receipt_id";
        route_outcome = text "route_outcome";
        intent_digest = text "intent_digest";
        source_snapshot_id = text "source_snapshot_id";
        template_catalog_version = text "template_catalog_version";
        policy_version = text "policy_version";
        structured_intent_json = text "structured_intent_json";
      }

  -- the test of `_restore_receipt` before the signature's
  abbrev pub fits_context : ReceiptFields → RouteContext → Bool
  fits_context f c =
      contains receipt_eligible_outcomes f.route_outcome
      && f.intent_digest == sha256_hex c.normalized_intent
      && f.source_snapshot_id == c.source_snapshot_id
      && f.template_catalog_version == c.template_catalog_version
      && f.policy_version == c.policy_version

  -- self._receipts[receipt.receipt_id] = (receipt, context), which becomes active
  abbrev pub activate : Authority → RouteReceipt → RouteContext → Authority
  activate a r c = record a {
    receipts = Dict.put r.fields.receipt_id (r, c) a.receipts;
    active_receipt_id = some r.fields.receipt_id;
  }

  abbrev pub restore_checked :
      Authority → RouteReceipt → RouteContext → Option Bool → Authority × Ending
  restore_checked a r c none = (a, type_error)
  restore_checked a r c (some false) = (a, done)
  restore_checked a r c (some true) = (activate a r c, done)

  abbrev pub restore_for : Authority → Fields → Option RouteContext → Authority × Ending
  restore_for a d none = (a, done)
  restore_for a d (some c) =
      let f = claimed d in
      let signature = to_str (Json.get_or "signature" (str "") d) in
      if fits_context f c
      then restore_checked a (record { fields = f; signature = signature }) c
          (compare_digest signature (sign_receipt_fields lib f))
      else (a, done)

  unfoldable pub restore_receipt : Authority → Fields → Authority × Ending
  restore_receipt a d = restore_for a d a.context

  -- the new context; an active receipt stays only if the context is the same
  abbrev pub entered : Authority → RouteContext → Authority
  entered a c = record a {
    context = some c;
    active_receipt_id = if is_context a.context c then a.active_receipt_id else none;
  }

  unfoldable pub begin_request :
      Authority → String → String → String → String → Option Fields → Authority × Ending
  unfolding restore_receipt
  begin_request a intent snapshot catalog policy resume =
      let b = entered a (request_context intent snapshot catalog policy) in
      elim resume [ none ↦ (b, done) | some d ↦ restore_receipt b d ]

  -- `token` is `secrets.token_hex(16)`
  abbrev pub issued_fields : String → String → RouteContext → Option Fields → ReceiptFields
  issued_fields token outcome c intent = record {
    receipt_id = token;
    route_outcome = outcome;
    intent_digest = sha256_hex c.normalized_intent;
    source_snapshot_id = c.source_snapshot_id;
    template_catalog_version = c.template_catalog_version;
    policy_version = c.policy_version;
    structured_intent_json = canonical_intent_json lib intent;
  }

  abbrev pub issue :
      Authority → String → String → RouteContext → Option Fields → Authority × Recorded
  issue a token outcome c intent =
      let f = issued_fields token outcome c intent in
      let r : RouteReceipt = record { fields = f; signature = sign_receipt_fields lib f } in
      (activate a r c, receipt_issued r)

  abbrev pub inactive : Authority → Authority
  inactive a = record a { active_receipt_id = none }

  abbrev pub issue_normalized :
      Authority → String → String → RouteContext → Option Fields × Items → Authority × Recorded
  issue_normalized a token outcome c (intent, diagnostics) =
      if is_nil diagnostics
      then issue a token outcome c intent
      else (inactive a, structured_intent_invalid diagnostics)

  abbrev pub issue_structured :
      Authority → String → String → RouteContext → Option Fields → Authority × Recorded
  issue_structured a token outcome c none = issue a token outcome c none
  issue_structured a token outcome c (some d) =
      issue_normalized a token outcome c (normalize_intent (obj d))

  unfoldable pub record_backend_outcome :
      Authority → String → String → Option Fields → Authority × Recorded
  record_backend_outcome a token outcome structured = elim a.context [
    | none ↦ (a, context_missing)
    | some c ↦
        if contains receipt_eligible_outcomes outcome
        then issue_structured a token outcome c structured
        else (inactive a, outcome_recorded)
  ]

  abbrev pub current_only :
      Authority
      → RouteContext
      → Option (RouteReceipt × RouteContext)
      → Authority × Option RouteReceipt
  current_only a c none = (a, none)
  current_only a c (some (r, d)) = if d == c then (a, some r) else (inactive a, none)

  unfoldable pub active_receipt : Authority → Authority × Option RouteReceipt
  active_receipt a = elim a.active_receipt_id [
    | none ↦ (a, none)
    | some id ↦ elim a.context [
      | none ↦ (a, none)
      | some c ↦ current_only a c (Dict.get id a.receipts)
    ]
  ]

  abbrev without_diagnostics : Option Fields × Items → Option Fields
  without_diagnostics (intent, diagnostics) = if is_nil diagnostics then intent else none

  abbrev parsed_intent : String → Option Fields
  parsed_intent text =
      if text == ""
      then none
      else elim (loads text) [ none ↦ none | some v ↦ without_diagnostics (normalize_intent v) ]

  unfoldable pub active_structured_intent : Authority → Authority × Option Fields
  unfolding active_receipt
  active_structured_intent a =
      let (b, found) = active_receipt a in
      elim found [ none ↦ (b, none) | some r ↦ (b, parsed_intent r.fields.structured_intent_json) ]

  unfoldable pub validates : Authority → String → Authority × Bool
  unfolding active_receipt
  validates a id =
      let (b, found) = active_receipt a in
      elim found [ none ↦ (b, false) | some r ↦ (b, r.fields.receipt_id == id) ]

  unfoldable pub matches_active_intent : Authority → String → Bool
  matches_active_intent a intent = elim a.context [
    | none ↦ false
    | some c ↦ c.normalized_intent == normalize_semantic_intent lib intent
  ]
