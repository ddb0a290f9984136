-- ===== src/Trace.antt =====
-- web/execution_trace.py.
pub mod Progress
pub mod Envelope
pub mod Render
mod Tests
