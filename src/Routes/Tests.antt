-- ===== src/Routes/Tests.antt =====
-- A request, its receipt, and instances of the theorems on receipts.
use text.Mathlib.TextEquality.{eq_iff}
use dexpi_datalog.Prelude.{String, ◌≡◌, ◌≢◌, refl, Bool, true, false, none, some}
use dexpi_datalog.Prelude.Dict
use dexpi_datalog.Prelude.Text.{strip}
use dexpi_datalog.Json
use dexpi_datalog.Json.{Json, Fields, str, nil, end, field}
use dexpi_datalog.Routes.Defs.{
  RouteContext, RouteReceipt, Library, is_ascii, artifact, normalize_semantic_intent,
  sign_receipt_fields,
}
use dexpi_datalog.Routes.Authority.{
  Authority, new_authority, done, request_context, begin_request, record_backend_outcome,
  active_receipt, is_context, claimed,
}
use dexpi_datalog.Routes.Sound.{IsGenuine}
use dexpi_datalog.Routes.Genuine.{Reach, here, next, begins, records, active_receipt-IsGenuine}
use dexpi_datalog.Routes.Resume.{
  claimed_signature, forged_ending, begin_request_forged, changed_request_revokes, resume_carries,
}

abbrev text_of : Json → String
text_of (str s) = s
text_of v = ""

abbrev lib : Library
lib = record {
  fold = λ s. s;
  sha256_hex = λ s. s;
  hmac_hex = λ s. "ab12";
  dumps = λ v. "{}";
  loads = λ s. none;
  to_str = text_of;
  normalize_intent = λ v. (none, nil);
}

text_kept : (s : String) → lib.to_str (str s) ≡ s
text_kept s = refl

hex_ascii : (s : String) → is_ascii (lib.hmac_hex s) ≡ true
unfolding is_ascii
hex_ascii s = refl

abbrev begun : Authority
begun = (begin_request lib new_authority "which  pumps?" "s1" "t1" "p1" none).0

abbrev recorded : Authority
recorded = (record_backend_outcome lib begun "0f" "template_no_fit" none).0

abbrev receipt : RouteReceipt
receipt = record {
  fields = record {
    receipt_id = "0f";
    route_outcome = "template_no_fit";
    intent_digest = "which pumps";
    source_snapshot_id = "s1";
    template_catalog_version = "t1";
    policy_version = "p1";
    structured_intent_json = "";
  };
  signature = "ab12";
}

reached : Reach lib new_authority recorded
reached =
    next (next here (begins "which  pumps?" "s1" "t1" "p1" none refl))
      (records "0f" "template_no_fit" none refl)

held : (active_receipt lib recorded).1 ≡ some receipt
unfolding active_receipt record_backend_outcome begin_request normalize_semantic_intent
    sign_receipt_fields Dict.get Dict.put strip
held = refl

current : recorded.context ≡ some (request_context lib "which  pumps?" "s1" "t1" "p1")
unfolding record_backend_outcome begin_request
current = refl

active_receipt-IsGenuine_example :
    (c : RouteContext) × (recorded.context ≡ some c) × IsGenuine lib receipt c
active_receipt-IsGenuine_example = active_receipt-IsGenuine lib receipt reached held

resume_carries_example :
    ((begin_request lib new_authority "which  pumps?" "s1" "t1" "p1" (some (artifact receipt))).1
      ≡ done)
    × ((active_receipt lib
          (begin_request lib new_authority "which  pumps?" "s1" "t1" "p1"
            (some (artifact receipt))).0).1
        ≡ some receipt)
resume_carries_example =
    resume_carries lib text_kept hex_ascii new_authority receipt "which  pumps?" "s1" "t1" "p1"
      reached current held

abbrev forgery : Fields
forgery = field "receipt_id" (str "0f") (field "signature" (str "ab13") end)

not_signed : claimed_signature lib forgery ≢ sign_receipt_fields lib (claimed lib forgery)
unfolding sign_receipt_fields Json.get_or Json.get
not_signed e = let h : ◌≡◌ {A = Bool} false true = (eq_iff "ab13" "ab12").1 e in cc

begin_request_forged_example :
    begin_request lib recorded "which  pumps?" "s1" "t1" "p1" (some forgery) ≡ (
      (begin_request lib recorded "which  pumps?" "s1" "t1" "p1" none).0,
      forged_ending lib forgery (request_context lib "which  pumps?" "s1" "t1" "p1"),
    )
begin_request_forged_example =
    begin_request_forged lib recorded "which  pumps?" "s1" "t1" "p1" forgery not_signed

other_request :
    is_context recorded.context (request_context lib "which valves?" "s1" "t1" "p1") ≡ false
unfolding record_backend_outcome begin_request normalize_semantic_intent strip
other_request = refl

changed_request_revokes_example :
    (active_receipt lib
      (begin_request lib
        (begin_request lib recorded "which valves?" "s1" "t1" "p1" none).0
        "which  pumps?"
        "s1"
        "t1"
        "p1"
        none).0).1
    ≡ none
changed_request_revokes_example =
    changed_request_revokes lib recorded "which valves?" "s1" "t1" "p1" "which  pumps?" "s1" "t1"
      "p1" other_request
