-- ===== src/Findings.antt =====
-- verification/suppressions.py and verification/validation_state.py: what becomes of the findings of a run.
pub mod Suppress
pub mod Accounted
pub mod State
mod Tests
