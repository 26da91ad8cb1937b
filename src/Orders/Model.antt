-- ===== src/Orders/Model.antt =====
-- The data of the Orders service: apps/orders/internal/order/order.go, and the rows of its tables
-- (apps/orders/migrations). A UUID is its 128-bit value, a time a number of nanoseconds.
use polyglot_ticketing_v.Base.{ℕ, Bool, true, false, Option, Text}
use polyglot_ticketing_v.Base.Int.{ℤ}
use polyglot_ticketing_v.Base.Table.{Table}
use polyglot_ticketing_v.Base.Db.{DbError}

-- The error values of package order, and a driver's error that is passed on.
pub data Error : Type 0 where
  not_found order_not_cancelable order_not_found order_not_payable reserved unavailable : Error
  projection_conflict projection_out_of_order : Error
  database : DbError → Error

pub data Status : Type 0 where
  created canceled awaiting_payment complete : Status

pub record Ticket : Type 0 where
  pub id : ℕ
  pub title : Text
  pub price : ℤ
  pub aggregate_version : ℤ

pub record Order : Type 0 where
  pub expires_at : ℕ
  pub id : ℕ
  pub status : Status
  pub ticket_id : ℕ
  pub user_id : Text

pub record PaymentOrder : Type 0 where
  pub id : ℕ
  pub price : ℤ
  pub status : Status
  pub user_id : Text

-- `unspecified` is any string but the two constants.
pub data PaymentOutcome : Type 0 where
  failed succeeded unspecified : PaymentOutcome

pub record PaymentResolutionResult : Type 0 where
  pub order : Order
  pub should_release_ticket : Bool

-- The order id is `none` where the source has the empty string.
pub record TicketReservationInput : Type 0 where
  pub expires_at : ℕ
  pub order_id : Option ℕ
  pub ticket_id : ℕ
  pub user_id : Text

pub record ReservationResult : Type 0 where
  pub created : Bool
  pub order : Order

pub record ExpirationResult : Type 0 where
  pub order : Order
  pub should_release_ticket : Bool

-- A row of `tickets` and of `orders`, behind its id.
pub record TicketRow : Type 0 where
  pub title : Text
  pub price : ℤ
  pub aggregate_version : ℤ

pub record OrderRow : Type 0 where
  pub expires_at : ℕ
  pub user_id : Text
  pub ticket_id : ℕ
  pub status : Status

pub record OrdersDb : Type 0 where
  pub tickets : Table TicketRow
  pub orders : Table OrderRow

abbrev pub is_created : Status → Bool
is_created created = true
is_created _ = false

abbrev pub is_canceled : Status → Bool
is_canceled canceled = true
is_canceled _ = false

abbrev pub is_awaiting_payment : Status → Bool
is_awaiting_payment awaiting_payment = true
is_awaiting_payment _ = false

abbrev pub is_complete : Status → Bool
is_complete complete = true
is_complete _ = false

-- `const ExpirationWindow = 15 * time.Minute`.
abbrev pub expiration_window : ℕ
expiration_window = 900_000_000_000
