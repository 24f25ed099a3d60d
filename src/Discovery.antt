-- ===== src/Discovery.antt =====
-- Discovery of other members (apps/api/src/modules/discovery).
pub mod Matching
mod Tests
