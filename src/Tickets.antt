-- ===== src/Tickets.antt =====
-- The Tickets service (apps/tickets): the tickets, their edits and their claims by orders.
pub mod Model
pub mod Repository
pub mod Service
pub mod Server
pub mod History
pub mod Retries
mod Tests
