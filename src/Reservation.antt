-- ===== src/Reservation.antt =====
-- apps/orders/internal/reservation: the Temporal workflows of Orders, over the databases of Orders
-- and Tickets.
pub mod Activities
pub mod Workflow
pub mod Later
pub mod Promise
pub mod Coordinator
pub mod System
pub mod History
mod Tests
