-- ===== src/Routes.antt =====
-- qa/route_receipts.py.
pub mod Defs
pub mod Authority
pub mod Sound
pub mod Genuine
pub mod Resume
mod Tests
