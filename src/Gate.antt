-- ===== src/Gate.antt =====
-- qa/faithfulness_gate.py.
pub mod Layers
pub mod Review
pub mod Evaluate
pub mod Status
pub mod Confirming
pub mod Passes
pub mod Compared
mod Tests
