-- ===== src/Moderation.antt =====
-- Reports about members and what moderators do with them (apps/api/src/modules/safety/reports.service.ts,
-- apps/api/src/modules/admin/reports/admin-reports.service.ts).
mod Tests
pub mod Model
pub mod Evidence
pub mod Create
pub mod Suspicious
pub mod Resolve
pub mod Requests
