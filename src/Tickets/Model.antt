-- ===== src/Tickets/Model.antt =====
-- The data of the Tickets service: apps/tickets/internal/ticket/ticket.go, and the rows of its
-- tables (apps/tickets/migrations).
use polyglot_ticketing_v.Base.{ℕ, Option, List, Text}
use polyglot_ticketing_v.Base.Int.{ℤ}
use polyglot_ticketing_v.Base.Table.{Table}
use polyglot_ticketing_v.Base.Db.{DbError}

-- The error values of package ticket, and a driver's error that is passed on.
pub data Error : Type 0 where
  forbidden not_found reserved conflict unavailable : Error
  database : DbError → Error

pub record Ticket : Type 0 where
  pub id : ℕ
  pub title : Text
  pub price : ℤ
  pub user_id : Text
  pub aggregate_version : ℕ
  pub reserved_by_order_id : Option ℕ

-- The id is `none` where the source has the empty string.
pub record CreateInput : Type 0 where
  pub id : Option ℕ
  pub idempotency_key : Option Text
  pub title : Text
  pub price : ℤ
  pub user_id : Text

pub record UpdateInput : Type 0 where
  pub idempotency_key : Text
  pub title : Text
  pub price : ℤ
  pub user_id : Text

pub record TicketRow : Type 0 where
  pub title : Text
  pub price : ℤ
  pub user_id : Text
  pub aggregate_version : ℕ
  pub reserved_by_order_id : Option ℕ

-- A row of `ticket_update_operations`; its key is its first three columns.
pub record OperationRow : Type 0 where
  pub ticket_id : ℕ
  pub user_id : Text
  pub idempotency_key : Text
  pub aggregate_version : ℕ
  pub title : Text
  pub price : ℤ

pub record TicketsDb : Type 0 where
  pub tickets : Table TicketRow
  pub operations : List OperationRow
