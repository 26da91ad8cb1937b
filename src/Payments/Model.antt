-- ===== src/Payments/Model.antt =====
-- The data of the Payments service: apps/payments/internal/payment/payment.go, and the rows of its
-- tables (apps/payments/migrations).
use polyglot_ticketing_v.Base.{
  ℕ, [], Bool, true, false, Option, Text, runes, text_eq, trim_space, to_lower, if◌then◌else◌,
  Result, ok, err, ◌||◌,
}
use polyglot_ticketing_v.Base.Int.{ℤ}
use polyglot_ticketing_v.Base.Table.{Table}
use polyglot_ticketing_v.Base.Db.{DbError}

-- The error values of package payment, a driver's error that is passed on, and the errors that the
-- Orders client makes of an answer without an order or of another failed call.
pub data Error : Type 0 where
  order_not_found order_not_payable payment_not_pending invalid_outcome unavailable : Error
  no_order rpc_failed : Error
  database : DbError → Error

-- `unspecified` is the empty string, for a status that Payments does not know.
pub data OrderStatus : Type 0 where
  awaiting_payment canceled complete unspecified : OrderStatus

pub data Status : Type 0 where
  failed pending succeeded : Status

pub record Order : Type 0 where
  pub id : ℕ
  pub price : ℤ
  pub status : OrderStatus
  pub user_id : Text

pub record Payment : Type 0 where
  pub id : ℕ
  pub mock_outcome : Option Status
  pub order_id : ℕ
  pub status : Status

pub record CreateInput : Type 0 where
  pub order_id : ℕ
  pub user_id : Text

pub record CreateResult : Type 0 where
  pub created : Bool
  pub payment : Payment

pub record OrderRow : Type 0 where
  pub aggregate_version : ℕ
  pub user_id : Text
  pub price : ℤ
  pub status : OrderStatus

pub record PaymentRow : Type 0 where
  pub order_id : ℕ
  pub status : Status
  pub mock_outcome : Option Status
  pub settlement_lease_expires_at : Option ℕ

pub record PaymentsDb : Type 0 where
  pub orders : Table OrderRow
  pub payments : Table PaymentRow

abbrev pub is_pending : Status → Bool
is_pending pending = true
is_pending _ = false

abbrev pub status_eq : Status → Status → Bool
status_eq failed failed = true
status_eq pending pending = true
status_eq succeeded succeeded = true
status_eq _ _ = false

abbrev pub order_status_eq : OrderStatus → OrderStatus → Bool
order_status_eq awaiting_payment awaiting_payment = true
order_status_eq canceled canceled = true
order_status_eq complete complete = true
order_status_eq unspecified unspecified = true
order_status_eq _ _ = false

-- `ParseProcessorOutcome`.
pub parse_processor_outcome : Text → Result Error Status
parse_processor_outcome value =
    let word = to_lower (trim_space value) in
    if text_eq word [] || text_eq word (runes "success")
    then ok succeeded
    else if text_eq word (runes "failure")
    then ok failed
    else err invalid_outcome

-- `ExpectedOrderStatus`.
abbrev pub expected_order_status : Status → OrderStatus
expected_order_status succeeded = complete
expected_order_status failed = canceled
expected_order_status pending = unspecified
