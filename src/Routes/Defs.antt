-- ===== src/Routes/Defs.antt =====
-- qa/route_receipts.py: contexts, receipts, and the texts that are compared and signed.
use Prim.Native.Char.{Char, code}
use text.Mathlib.TextEquality.{eq_iff}
use dexpi_datalog.Prelude.{
  String, ◌≡◌, ◌↔◌, Bool, true, false, ◌&&◌, ◌||◌, Option, none, some, List, [], ◌∷◌, arith, HasEq,
  ==_refl, ◌==◌, string_eq, ltb, nat_beq, if◌then◌else◌,
}
use dexpi_datalog.Prelude.Text.{◌⊕◌, is_space, strip}
use dexpi_datalog.Json.{Json, str, obj, Items, Fields, end, field}

pub record RouteContext : Type 0 where
  pub normalized_intent : String
  pub source_snapshot_id : String
  pub template_catalog_version : String
  pub policy_version : String

abbrev pub context_beq : RouteContext → RouteContext → Bool
context_beq c d =
    c.normalized_intent == d.normalized_intent
    && c.source_snapshot_id == d.source_snapshot_id
    && c.template_catalog_version == d.template_catalog_version
    && c.policy_version == d.policy_version

context_same :
    (c d : RouteContext)
    → c.normalized_intent ≡ d.normalized_intent
    → c.source_snapshot_id ≡ d.source_snapshot_id
    → c.template_catalog_version ≡ d.template_catalog_version
    → c.policy_version ≡ d.policy_version
    → c ≡ d
context_same c d p q r s = λ i. record {
  normalized_intent = p i;
  source_snapshot_id = q i;
  template_catalog_version = r i;
  policy_version = s i;
}

pub context_beq_iff : (c d : RouteContext) → (context_beq c d ≡ true) ↔ (c ≡ d)
context_beq_iff c d = (
  λ h. ground (
    arith,
    context_same c d,
    eq_iff c.normalized_intent d.normalized_intent,
    eq_iff c.source_snapshot_id d.source_snapshot_id,
    eq_iff c.template_catalog_version d.template_catalog_version,
    eq_iff c.policy_version d.policy_version,
  ),
  λ e. rw e (
      rw (
        ==_refl d.normalized_intent,
        ==_refl d.source_snapshot_id,
        ==_refl d.template_catalog_version,
        ==_refl d.policy_version,
      )),
)

instance abbrev pub context_eq : HasEq RouteContext
context_eq = record { equals = context_beq; equals_iff = context_beq_iff }

-- What a receipt's signature covers.
pub record ReceiptFields : Type 0 where
  pub receipt_id : String
  pub route_outcome : String
  pub intent_digest : String
  pub source_snapshot_id : String
  pub template_catalog_version : String
  pub policy_version : String
  pub structured_intent_json : String

-- The fields of the class, with those that are signed in one record.
pub record RouteReceipt : Type 0 where
  pub fields : ReceiptFields
  pub signature : String

-- `_RECEIPT_ELIGIBLE_OUTCOMES`
abbrev pub receipt_eligible_outcomes : List String
receipt_eligible_outcomes =
    "template_no_fit" ∷ "template_faithfulness_failure" ∷ "generated_query_authorized" ∷ []

-- Python's library and the parts of the package that are not modelled here: NFKC with `casefold`,
-- sha256 and the keyed HMAC as hex digits, `json.dumps` with sorted keys, `json.loads`, `str` of a
-- JSON value, and `normalize_intent`, which returns a normalized intent, if there is
-- one, and diagnostics.
pub record Library : Type 0 where
  pub fold : String → String
  pub sha256_hex : String → String
  pub hmac_hex : String → String
  pub dumps : Json → String
  pub loads : String → Option Json
  pub to_str : Json → String
  pub normalize_intent : Json → Option Fields × Items

starts_with_space : String → Bool
starts_with_space String.[] = false
starts_with_space (String.◌∷◌ c s) = is_space c

-- re.sub(r"\s+", " ", s)
squeeze : String → String
unfolding starts_with_space
squeeze String.[] = String.[]
squeeze (String.◌∷◌ c s) =
    let rest = squeeze s in
    if is_space c then (if starts_with_space s then rest else " " ⊕ rest) else String.◌∷◌ c rest

is_stop : Char → Bool
is_stop c = let n = code c in nat_beq n b'.' || nat_beq n b'?' || nat_beq n b'!'

all_stops : String → Bool
unfolding is_stop
all_stops String.[] = true
all_stops (String.◌∷◌ c s) = is_stop c && all_stops s

-- s.rstrip(".?!")
rstrip_stops : String → String
unfolding all_stops
rstrip_stops String.[] = String.[]
rstrip_stops (String.◌∷◌ c s) =
    let rest = String.◌∷◌ c (rstrip_stops s) in
    if all_stops (String.◌∷◌ c s) then String.[] else rest

-- every character is ASCII
unfoldable pub is_ascii : String → Bool
is_ascii String.[] = true
is_ascii (String.◌∷◌ c s) = ltb (code c) 128 && is_ascii s

-- `hmac.compare_digest` of two texts: `none` is the TypeError where one is not ASCII
unfoldable pub compare_digest : String → String → Option Bool
unfolding is_ascii
compare_digest s t = if is_ascii s && is_ascii t then some (s == t) else none

abbrev pub fields_dict : ReceiptFields → Fields → Fields
fields_dict f rest = field "receipt_id" (str f.receipt_id) (
    field "route_outcome" (str f.route_outcome) (
      field "intent_digest" (str f.intent_digest) (
        field "source_snapshot_id" (str f.source_snapshot_id) (
          field "template_catalog_version" (str f.template_catalog_version) (
            field "policy_version" (str f.policy_version)
              (field "structured_intent_json" (str f.structured_intent_json) rest))))))

-- `artifact`
abbrev pub artifact : RouteReceipt → Fields
artifact r = fields_dict r.fields (field "signature" (str r.signature) end)

module _ (lib : Library) where
  unfoldable pub normalize_semantic_intent : String → String
  unfolding squeeze rstrip_stops
  normalize_semantic_intent intent = rstrip_stops (strip (squeeze (lib.fold intent)))

  -- `_sign_receipt_fields`
  unfoldable pub sign_receipt_fields : ReceiptFields → String
  sign_receipt_fields f = lib.hmac_hex (lib.dumps (obj (fields_dict f end)))

  -- `_canonical_intent_json`
  abbrev pub canonical_intent_json : Option Fields → String
  canonical_intent_json none = ""
  canonical_intent_json (some d) = lib.dumps (obj d)
