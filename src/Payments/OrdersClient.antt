-- ===== src/Payments/OrdersClient.antt =====
-- apps/payments/internal/payment/orders_client.go: Orders' answers as Payments reads them. What the
-- gRPC call answers, a response or a status code, is an argument.
pub mod Agrees
use polyglot_ticketing_v.Base.{ℕ, Option, none, some, Text, Result, ok, err}
use polyglot_ticketing_v.Base.Int.{ℤ}
use polyglot_ticketing_v.Base.Grpc.{Code, not_found, already_exists}
use polyglot_ticketing_v.Orders.Wire.{
  WireStatus, status_awaiting_payment, status_canceled, status_complete, WireOutcome,
  outcome_succeeded, outcome_failed, outcome_unspecified, WireOrder,
}
use polyglot_ticketing_v.Payments.Model.{
  Error, order_not_found, order_not_payable, no_order, rpc_failed, OrderStatus, awaiting_payment,
  canceled, complete, unspecified, Status, succeeded, failed, pending, Order,
}

-- `mapOrdersError`.
unfoldable pub map_orders_error : Code → Error
map_orders_error not_found = order_not_found
map_orders_error already_exists = order_not_payable
map_orders_error _ = rpc_failed

-- `toOrderStatus`.
unfoldable pub to_order_status : WireStatus → OrderStatus
to_order_status status_awaiting_payment = awaiting_payment
to_order_status status_canceled = canceled
to_order_status status_complete = complete
to_order_status _ = unspecified

-- `toPaymentOutcome`.
unfoldable pub to_payment_outcome : Status → WireOutcome
to_payment_outcome succeeded = outcome_succeeded
to_payment_outcome failed = outcome_failed
to_payment_outcome pending = outcome_unspecified

-- `StartPayment`, by what the call answers: a code, or a response that may hold no order.
unfoldable pub start_payment : Result Code (Option WireOrder) → Result Error Order
unfolding map_orders_error to_order_status
start_payment (err code) = err (map_orders_error code)
start_payment (ok none) = err no_order
start_payment (ok (some started)) = ok (record {
  id = started.id;
  price = started.price;
  status = to_order_status started.status;
  user_id = started.user_id;
})

read_resolved : Result Code (Option WireStatus) → Result Error OrderStatus
unfolding map_orders_error to_order_status
read_resolved (err code) = err (map_orders_error code)
read_resolved (ok none) = err no_order
read_resolved (ok (some status)) = ok (to_order_status status)

-- `ResolvePayment`, through the RPC of an order's id and an outcome.
pub resolve_payment :
    (ℕ → WireOutcome → Result Code (Option WireStatus)) → ℕ → Status → Result Error OrderStatus
unfolding read_resolved to_payment_outcome
resolve_payment rpc order_id outcome = read_resolved (rpc order_id (to_payment_outcome outcome))
