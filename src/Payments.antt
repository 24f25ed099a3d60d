-- ===== src/Payments.antt =====
-- Event passes: checkout, payment finalization, refunds, webhooks and expiry
-- (apps/api/src/modules/payments).
pub mod Model
pub mod Seats
pub mod Checkout
pub mod Finalize
pub mod Refunds
pub mod Service
pub mod Webhook
pub mod Expiry
pub mod Capacity
pub mod Keys
pub mod Steps
pub mod Requests
mod Tests
