-- ===== src/Members.antt =====
-- Accounts, their sessions and their sanctions (apps/api/src/modules/auth,
-- apps/api/src/middlewares/authenticate.ts and apps/api/src/modules/safety/sanctions.ts).
pub mod Model
pub mod Sessions
pub mod Sanctions
pub mod Lifting
mod Tests
