-- ===== src/Benchmark/Contract.antt =====
-- benchmark/contract.py: answers, ground truth, and the rubric of trap questions.
use dexpi_datalog.Prelude.{String, Bool, List, [], ◌∷◌}
use dexpi_datalog.Json.{Fields}

abbrev pub verdict_violation_found : String
verdict_violation_found = "violation_found"

abbrev pub verdict_no_violation : String
verdict_no_violation = "no_violation"

abbrev pub source_conclusion_verdicts : List String
source_conclusion_verdicts = verdict_violation_found ∷ verdict_no_violation ∷ []

abbrev pub posture_source_grounded : String
posture_source_grounded = "source_grounded"

pub record TrapRubric : Type 0 where
  pub expected_posture : String
  pub refusal_basis : String
  pub redirect_target : String
  pub human_spot_check : Bool

pub record TrapJudgment : Type 0 where
  pub grounded_refusal : Bool
  pub graceful_redirect : Bool
  pub rationale : String

pub record StructuredAnswer : Type 0 where
  pub verdict : String
  pub witness_ids : List String
  pub posture : String
  pub transcript : List Fields
  pub usage : Fields
  pub answer_text : String
  pub support : Fields

pub record GroundTruth : Type 0 where
  pub verdict : String
  pub witness_ids : List String
