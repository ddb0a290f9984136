-- ===== src/Turn.antt =====
-- web/turn_lifecycle.py: the lifecycle of one question, as a record in an artifact store.
pub mod Defs
pub mod Keys
pub mod Outcome
pub mod Lifecycle
pub mod Invariant
pub mod Sound
pub mod Traced
pub mod Sections
pub mod Settle
pub mod Steps
pub mod Final
pub mod Again
pub mod Rendered
pub mod Beyond
pub mod Settled
mod Tests
