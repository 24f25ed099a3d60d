-- ===== src/Chat.antt =====
-- Chat between matched members (apps/api/src/modules/chat, apps/api/src/models/message.model.ts).
mod Tests
pub mod Model
pub mod Rules
pub mod Send
pub mod Reading
