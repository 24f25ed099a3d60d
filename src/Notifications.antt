-- ===== src/Notifications.antt =====
-- In-app notifications (apps/api/src/modules/notifications/notifications.service.ts).
mod Tests
pub mod Model
pub mod Notify
pub mod Inbox
pub mod Preferences
pub mod Requests
