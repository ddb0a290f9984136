-- ===== src/Findings/Suppress.antt =====
-- verification/suppressions.py. Every finding has a rule id and the ids of affected objects, and
-- every waiver an id and a rationale, as the rule packs and waiver files give them; the `detail` of
-- a finding is what else stands in its dict.
use dexpi_datalog.Prelude.{
  String, Bool, false, not, ◌&&◌, Option, none, some, List, [], ◌∷◌, ◌++◌, ◌==◌, string_eq,
  contains, if◌then◌else◌,
}
use dexpi_datalog.Json.{Fields}

pub record Finding : Type 0 where
  pub rule_id : String
  pub affected_object_ids : List String
  pub detail : Fields

-- The rule and the object of a waiver are read by `get`, so they may be absent.
pub record Waiver : Type 0 where
  pub waiver_id : String
  pub rule_id : Option String
  pub affected_object_id : Option String
  pub rationale : String

pub record SuppressionRecord : Type 0 where
  pub waiver_id : String
  pub rule_id : String
  pub affected_object_ids : List String
  pub rationale : String

pub record SuppressionResult : Type 0 where
  pub raw_findings : List Finding
  pub suppressed_findings : List Finding
  pub suppression_records : List SuppressionRecord

abbrev pub is_rule : Option String → String → Bool
is_rule none r = false
is_rule (some w) r = w == r

abbrev pub affects : Option String → List String → Bool
affects none ids = false
affects (some o) ids = contains ids o

abbrev pub covers : Waiver → Finding → Bool
covers w f = is_rule w.rule_id f.rule_id && affects w.affected_object_id f.affected_object_ids

unfoldable pub match_waiver : Finding → List Waiver → Option Waiver
match_waiver f [] = none
match_waiver f (w ∷ ws) =
    if not (is_rule w.rule_id f.rule_id)
    then match_waiver f ws
    else if not (affects w.affected_object_id f.affected_object_ids)
    then match_waiver f ws
    else some w

abbrev pub record_of : Waiver → Finding → SuppressionRecord
record_of w f = record {
  waiver_id = w.waiver_id;
  rule_id = f.rule_id;
  affected_object_ids = f.affected_object_ids;
  rationale = w.rationale;
}

-- the loop, with the lists as they have been filled
unfoldable pub sift :
    List Waiver
    → List Finding
    → List Finding
    → List SuppressionRecord
    → List Finding × List SuppressionRecord
sift ws [] remaining records = (remaining, records)
sift ws (f ∷ fs) remaining records = elim (match_waiver f ws) [
  | none ↦ sift ws fs (remaining ++ f ∷ []) records
  | some w ↦ sift ws fs remaining (records ++ record_of w f ∷ [])
]

unfoldable pub apply_suppressions : List Finding → List Waiver → SuppressionResult
unfolding sift
apply_suppressions findings waivers =
    let (remaining, records) = sift waivers findings [] [] in
    record {
      raw_findings = findings;
      suppressed_findings = remaining;
      suppression_records = records;
    }
