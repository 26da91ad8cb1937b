-- ===== src/Payments.antt =====
-- The Payments service (apps/payments): payments for orders, and their settlement.
pub mod Model
pub mod Repository
pub mod OrdersClient
pub mod Service
pub mod Server
pub mod Worker
pub mod History
mod Tests
