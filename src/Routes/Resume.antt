-- ===== src/Routes/Resume.antt =====
-- Receipts that travel: an artifact that comes back with a later request.
use mathlib.Core.Path.{subst}
use text.Mathlib.TextEquality.{eq_iff}
use dexpi_datalog.Prelude.{
  String, ◌≡◌, ◌≢◌, refl, sym, ◌∙◌, inl, inr, true, false, none, some, ◌&&◌, ◌==◌, string_eq,
  ==_refl, Bool-cases, if◌then◌else◌,
}
use dexpi_datalog.Prelude.Dict
use dexpi_datalog.Prelude.Dict.{Dict, get-put}
use dexpi_datalog.Json
use dexpi_datalog.Json.{Json, str, Fields}
use dexpi_datalog.Routes.Defs.{
  RouteContext, context_eq, ReceiptFields, RouteReceipt, Library, compare_digest,
  sign_receipt_fields, is_ascii, artifact,
}
use dexpi_datalog.Routes.Authority.{
  Authority, new_authority, Ending, done, type_error, claimed, fits_context, activate,
  restore_checked, restore_for, entered, request_context, begin_request, is_context, active_receipt,
}
use dexpi_datalog.Routes.Sound.{IsGenuine}
use dexpi_datalog.Routes.Genuine.{Reach, active_receipt-IsGenuine}

module _ (lib : Library) where
  -- the signature that an artifact claims
  abbrev pub claimed_signature : Fields → String
  claimed_signature d = lib.to_str (Json.get_or "signature" (str "") d)

  -- How a request with a forged artifact ends: comparing its signature raises where the artifact
  -- fits the request and one of the two signatures is not ASCII.
  pub forged_ending : Fields → RouteContext → Ending
  forged_ending d c =
      if fits_context lib (claimed lib d) c
      then (if is_ascii (claimed_signature d) && is_ascii (sign_receipt_fields lib (claimed lib d))
          then done
          else type_error)
      else done

  checked_forged :
      (a : Authority) (r : RouteReceipt) (c : RouteContext)
      → r.signature ≢ sign_receipt_fields lib r.fields
      → restore_checked lib a r c (compare_digest r.signature (sign_receipt_fields lib r.fields))
        ≡ (
          a,
          if is_ascii r.signature && is_ascii (sign_receipt_fields lib r.fields)
              then done
              else type_error,
        )
  unfolding compare_digest
  checked_forged a r c differ =
      let s = r.signature in
      let t = sign_receipt_fields lib r.fields in
      elim (Bool-cases (is_ascii s && is_ascii t)) [
        | inr no' ↦ rw no'
        | inl yes' ↦ elim (Bool-cases (s == t)) [
          | inr other ↦ rw (yes', other)
          | inl same ↦ absurd (differ ((eq_iff s t).0 same))
        ]
      ]

  restore_forged :
      (a : Authority) (d : Fields) (c : RouteContext)
      → claimed_signature d ≢ sign_receipt_fields lib (claimed lib d)
      → restore_for lib a d (some c) ≡ (a, forged_ending d c)
  unfolding forged_ending
  restore_forged a d c forged =
      let f = claimed lib d in
      elim (Bool-cases (fits_context lib f c)) [
        | inr no' ↦ rw no'
        | inl fits ↦
            rw fits
              (checked_forged a (record { fields = f; signature = claimed_signature d }) c forged)
      ]

  -- An artifact whose signature is not the authority's for the fields that it claims activates
  -- nothing: the request leaves the same state as without it. It ends normally, except that a
  -- TypeError escapes where the fields fit the request and one of the two signatures is not ASCII.
  pub begin_request_forged :
      (a : Authority) (intent snapshot catalog policy : String) (d : Fields)
      → claimed_signature d ≢ sign_receipt_fields lib (claimed lib d)
      → begin_request lib a intent snapshot catalog policy (some d) ≡ (
        (begin_request lib a intent snapshot catalog policy none).0,
        forged_ending d (request_context lib intent snapshot catalog policy),
      )
  unfolding begin_request
  begin_request_forged a intent snapshot catalog policy d forged =
      let c = request_context lib intent snapshot catalog policy in
      restore_forged (entered lib a c) d c forged

  no_active : (b : Authority) → b.active_receipt_id ≡ none → (active_receipt lib b).1 ≡ none
  unfolding active_receipt
  no_active b e = rw (e, active_receipt)

  -- A request of another context revokes the active receipt for good: not even the return of the
  -- request that it was issued for makes it active again.
  pub changed_request_revokes :
      (a : Authority) (intent snapshot catalog policy intent' snapshot' catalog' policy' : String)
      → is_context a.context (request_context lib intent snapshot catalog policy) ≡ false
      → (active_receipt lib
          (begin_request lib
            (begin_request lib a intent snapshot catalog policy none).0
            intent'
            snapshot'
            catalog'
            policy'
            none).0).1
        ≡ none
  unfolding begin_request
  changed_request_revokes a intent snapshot catalog policy intent' snapshot' catalog' policy' h =
      let c = request_context lib intent snapshot catalog policy in
      let c' = request_context lib intent' snapshot' catalog' policy' in
      no_active (entered lib (entered lib a c) c')
        (rw h (elim (Bool-cases (is_context (some c) c')) [ inl e ↦ rw e | inr e ↦ rw e ]))

  restore_checks :
      (a : Authority) (d : Fields) (r : RouteReceipt) (c : RouteContext)
      → claimed lib d ≡ r.fields
      → claimed_signature d ≡ r.signature
      → fits_context lib r.fields c ≡ true
      → compare_digest r.signature (sign_receipt_fields lib r.fields) ≡ some true
      → restore_for lib a d (some c) ≡ (activate lib a r c, done)
  restore_checks a d r c p q fits same =
      let fits' : fits_context lib (claimed lib d) c ≡ true =
        subst (λ f. fits_context lib f c ≡ true) (sym p) fits in
      rw fits' (rw (p, q, same))

  begin_resumes :
      (a : Authority) (intent snapshot catalog policy : String) (d : Fields)
      → begin_request lib a intent snapshot catalog policy (some d)
        ≡ restore_for lib
            (entered lib a (request_context lib intent snapshot catalog policy))
            d
            (some (request_context lib intent snapshot catalog policy))
  unfolding begin_request
  begin_resumes a intent snapshot catalog policy d = refl

  some_injective : (c d : RouteContext) → some c ≡ some d → c ≡ d
  some_injective c d e = cc

  module _ (text_kept : (s : String) → lib.to_str (str s) ≡ s)
      (hex_ascii : (s : String) → is_ascii (lib.hmac_hex s) ≡ true) where
    claimed-artifact : (r : RouteReceipt) → claimed lib (artifact r) ≡ r.fields
    unfolding Json.get_or Json.get
    claimed-artifact r = λ i. record {
      receipt_id = text_kept r.fields.receipt_id i;
      route_outcome = text_kept r.fields.route_outcome i;
      intent_digest = text_kept r.fields.intent_digest i;
      source_snapshot_id = text_kept r.fields.source_snapshot_id i;
      template_catalog_version = text_kept r.fields.template_catalog_version i;
      policy_version = text_kept r.fields.policy_version i;
      structured_intent_json = text_kept r.fields.structured_intent_json i;
    }

    signature-artifact : (r : RouteReceipt) → claimed_signature (artifact r) ≡ r.signature
    unfolding Json.get_or Json.get
    signature-artifact r = text_kept r.signature

    genuine-fits :
        (r : RouteReceipt) (c : RouteContext)
        → IsGenuine lib r c
        → fits_context lib r.fields c ≡ true
    genuine-fits r c g = rw (
      g.eligible,
      g.for_intent,
      g.for_source,
      g.for_catalog,
      g.for_policy,
      ==_refl (lib.sha256_hex c.normalized_intent),
      ==_refl c.source_snapshot_id,
      ==_refl c.template_catalog_version,
      ==_refl c.policy_version,
    )

    sign_ascii : (f : ReceiptFields) → is_ascii (sign_receipt_fields lib f) ≡ true
    unfolding sign_receipt_fields
    sign_ascii f = hex_ascii _

    same_digest :
        (r : RouteReceipt) (c : RouteContext)
        → IsGenuine lib r c
        → compare_digest r.signature (sign_receipt_fields lib r.fields) ≡ some true
    unfolding compare_digest
    same_digest r c g =
        rw (g.signed, sign_ascii r.fields, ==_refl (sign_receipt_fields lib r.fields))

    restore_genuine :
        (a : Authority) (r : RouteReceipt) (c : RouteContext)
        → IsGenuine lib r c
        → restore_for lib a (artifact r) (some c) ≡ (activate lib a r c, done)
    restore_genuine a r c g =
        restore_checks a (artifact r) r c (claimed-artifact r) (signature-artifact r)
          (genuine-fits r c g) (same_digest r c g)

    activate-active :
        (a : Authority) (r : RouteReceipt) (c : RouteContext)
        → a.context ≡ some c
        → (active_receipt lib (activate lib a r c)).1 ≡ some r
    unfolding active_receipt
    activate-active a r c e =
        let id = r.fields.receipt_id in
        let got : Dict.get id (Dict.put id (r, c) a.receipts) ≡ some (r, c) =
          get-put id id (r, c) a.receipts ∙ rw (==_refl id) in
        rw (e, active_receipt) (rw got (rw (==_refl c)))

    -- A receipt that one authority holds to be active is good in every other with the same key,
    -- after a restart, say: sent along with the same request, it is taken up without an error and
    -- is active there.
    pub resume_carries :
        {a : Authority} (d : Authority) (r : RouteReceipt) (intent snapshot catalog policy : String)
        → Reach lib new_authority a
        → a.context ≡ some (request_context lib intent snapshot catalog policy)
        → (active_receipt lib a).1 ≡ some r
        → ((begin_request lib d intent snapshot catalog policy (some (artifact r))).1 ≡ done)
          × ((active_receipt lib
                (begin_request lib d intent snapshot catalog policy (some (artifact r))).0).1
              ≡ some r)
    resume_carries {a} d r intent snapshot catalog policy path e h =
        let c = request_context lib intent snapshot catalog policy in
        let (c', k, g) = active_receipt-IsGenuine lib r path h in
        let g' : IsGenuine lib r c = rw (some_injective c c' (sym e ∙ k)) g in
        let restored = restore_genuine (entered lib d c) r c g' in
        let begun = begin_resumes d intent snapshot catalog policy (artifact r) ∙ restored in
        (rw begun, rw begun (activate-active (entered lib d c) r c refl))
