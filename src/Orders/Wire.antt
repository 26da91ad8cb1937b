-- ===== src/Orders/Wire.antt =====
-- The enums and messages of proto/orders/v1/orders.proto, which Orders writes and Payments reads.
use polyglot_ticketing_v.Base.{ℕ, Bool, Text}
use polyglot_ticketing_v.Base.Int.{ℤ}

-- `ordersv1.OrderStatus` and `ordersv1.PaymentOutcome`; `status_other` is every other number.
pub data WireStatus : Type 0 where
  status_created status_awaiting_payment status_canceled status_complete status_other : WireStatus

pub data WireOutcome : Type 0 where
  outcome_succeeded outcome_failed outcome_unspecified : WireOutcome

-- `ordersv1.PaymentOrder`.
pub record WireOrder : Type 0 where
  pub id : ℕ
  pub price : ℤ
  pub status : WireStatus
  pub user_id : Text

-- `ordersv1.Order`.
pub record OrderResponse : Type 0 where
  pub expires_at : ℕ
  pub id : ℕ
  pub status : WireStatus
  pub ticket_id : ℕ
  pub user_id : Text

-- `ordersv1.CreateOrderResponse`.
pub record CreateOrderResponse : Type 0 where
  pub created : Bool
  pub expires_at : ℕ
  pub id : ℕ
  pub status : WireStatus
  pub ticket_id : ℕ
  pub user_id : Text

-- `ordersv1.EnsureTicketProjectionRequest`.
pub record ProjectionRequest : Type 0 where
  pub id : Text
  pub title : Text
  pub price : ℤ
  pub aggregate_version : ℤ
