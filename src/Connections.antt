-- ===== src/Connections.antt =====
-- Interests, matches and blocks between two members (apps/api/src/modules/interests and
-- apps/api/src/modules/safety/blocks.service.ts).
pub mod Model
pub mod Pairs
pub mod Single
pub mod Interests
pub mod Matches
pub mod Blocks
pub mod Steps
pub mod Requests
mod Tests
