-- ===== src/Orders.antt =====
-- The Orders service (apps/orders): orders on tickets, and its projection of the tickets.
pub mod Model
pub mod Repository
pub mod Projection
pub mod Service
pub mod Wire
pub mod Server
pub mod History
pub mod Retries
mod Tests
