-- ===== src/Findings/Tests.antt =====
-- Two findings, one of them waived, and instances of the theorems.
use dexpi_datalog.Findings.State.{
  derive_validation_state, IsReported, derive_validation_state-IsReported,
}
use dexpi_datalog.Prelude.{refl, inl, inr, some, List, [], ◌∷◌}
use dexpi_datalog.Json.{end}
use dexpi_datalog.Findings.Suppress.{Finding, Waiver, apply_suppressions}
use dexpi_datalog.Findings.Accounted.{IsAccount, apply_suppressions-IsAccount}

abbrev findings : List Finding
findings =
    record { rule_id = "R1"; affected_object_ids = "P-1" ∷ "V-1" ∷ []; detail = end }
    ∷ record { rule_id = "R2"; affected_object_ids = "P-1" ∷ []; detail = end }
    ∷ []

abbrev waivers : List Waiver
waivers =
    record {
      waiver_id = "W1";
      rule_id = some "R1";
      affected_object_id = some "V-1";
      rationale = "spare";
    }
    ∷ []

apply_suppressions-IsAccount_example :
    IsAccount findings waivers (apply_suppressions findings waivers)
apply_suppressions-IsAccount_example = apply_suppressions-IsAccount findings waivers

derive_validation_state-IsReported_example :
    IsReported
      (record { rule_id = "R2"; affected_object_ids = "P-1" ∷ []; detail = end })
      (derive_validation_state findings)
derive_validation_state-IsReported_example =
    derive_validation_state-IsReported findings
      (record { rule_id = "R2"; affected_object_ids = "P-1" ∷ []; detail = end }) (inr (inl refl))
