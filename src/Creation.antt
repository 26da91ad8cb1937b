-- ===== src/Creation.antt =====
-- The Temporal workflows that create and update tickets and that create payments.
pub mod TicketCreation
pub mod PaymentCreation
mod Tests
