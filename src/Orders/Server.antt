-- ===== src/Orders/Server.antt =====
-- apps/orders/internal/grpc: the handlers of server.go, each a call of the service and the status
-- of its error, and the interceptor of validation.go. Logging is left out.
pub mod Interceptor
pub mod Projected
use polyglot_ticketing_v.Base.{ℕ, Bool, Option, none, some, List, map, Text, runes, if◌then◌else◌}
use polyglot_ticketing_v.Base.Db.{Db, raise}
use polyglot_ticketing_v.Base.ErrorCode
use polyglot_ticketing_v.Base.Grpc.{
  Status, unavailable, internal, one_error, plain_error, handle, unvalidated,
}
use polyglot_ticketing_v.Base.Grpc
use polyglot_ticketing_v.Base.Validation.{answered}
use polyglot_ticketing_v.Orders.Model.{
  Error, not_found, order_not_cancelable, order_not_found, order_not_payable, reserved,
  unavailable as unavailable_error, projection_conflict, projection_out_of_order, Ticket, Order,
  PaymentOrder, PaymentOutcome, ReservationResult, OrdersDb,
}
use polyglot_ticketing_v.Orders.Model
use polyglot_ticketing_v.Orders.Wire.{
  WireStatus, status_created, status_awaiting_payment, status_canceled, status_complete,
  WireOutcome, outcome_succeeded, outcome_failed, outcome_unspecified, WireOrder, OrderResponse,
  CreateOrderResponse, ProjectionRequest,
}
use polyglot_ticketing_v.Orders.Projection.{validate_projection}
use polyglot_ticketing_v.Orders.Service.{
  Coordinator, reserve_ticket, get_order, list_orders, start_checkout, cancel_order,
  resolve_payment,
}

-- `toOrderStatus`.
unfoldable pub to_order_status : Model.Status → WireStatus
to_order_status Model.created = status_created
to_order_status Model.canceled = status_canceled
to_order_status Model.awaiting_payment = status_awaiting_payment
to_order_status Model.complete = status_complete

-- `toPaymentOutcome`.
unfoldable pub to_payment_outcome : WireOutcome → PaymentOutcome
to_payment_outcome outcome_succeeded = Model.succeeded
to_payment_outcome outcome_failed = Model.failed
to_payment_outcome outcome_unspecified = Model.unspecified

-- `toPaymentOrderResponse`.
pub to_payment_order_response : PaymentOrder → WireOrder
unfolding to_order_status
to_payment_order_response found = record {
  id = found.id;
  price = found.price;
  status = to_order_status found.status;
  user_id = found.user_id;
}

-- `toOrderResponse`.
pub to_order_response : Order → OrderResponse
unfolding to_order_status
to_order_response found = record {
  expires_at = found.expires_at;
  id = found.id;
  status = to_order_status found.status;
  ticket_id = found.ticket_id;
  user_id = found.user_id;
}

-- `toCreateOrderResponse`.
pub to_create_order_response : ReservationResult → CreateOrderResponse
unfolding to_order_status
to_create_order_response result = record {
  created = result.created;
  expires_at = result.order.expires_at;
  id = result.order.id;
  status = to_order_status result.order.status;
  ticket_id = result.order.ticket_id;
  user_id = result.order.user_id;
}

abbrev order_missing : Status
order_missing = one_error Grpc.not_found ErrorCode.not_found (runes "Order not found.")

abbrev conflict : Text → Status
conflict message = one_error Grpc.already_exists ErrorCode.already_exists message

abbrev busy : Text → Status
busy message = one_error unavailable ErrorCode.service_unavailable message

abbrev failure : Text → Status
failure message = one_error internal ErrorCode.internal_error message

unfoldable pub projection_status : Error → Status
projection_status projection_out_of_order =
    plain_error unavailable
      (runes "ticket projection update is ahead of the current aggregate version")
projection_status projection_conflict =
    plain_error Grpc.already_exists
      (runes "ticket projection has conflicting data for its aggregate version")
projection_status _ = plain_error unavailable (runes "Unable to persist ticket projection")

unfoldable pub start_payment_status : Error → Status
start_payment_status order_not_found = order_missing
start_payment_status order_not_payable = conflict (runes "Order cannot be paid.")
start_payment_status _ = failure (runes "Unable to start payment.")

pub resolve_payment_status : Error → Status
resolve_payment_status order_not_found = order_missing
resolve_payment_status order_not_payable = conflict (runes "Order cannot be resolved by payment.")
resolve_payment_status unavailable_error = busy (runes "Unable to resolve payment.")
resolve_payment_status _ = failure (runes "Unable to resolve payment.")

unfoldable pub cancel_order_status : Error → Status
cancel_order_status order_not_found = order_missing
cancel_order_status order_not_cancelable = conflict (runes "Only created orders can be canceled.")
cancel_order_status unavailable_error = busy (runes "Unable to cancel order.")
cancel_order_status _ = failure (runes "Unable to cancel order.")

unfoldable pub create_order_status : Error → Status
create_order_status not_found =
    one_error Grpc.not_found ErrorCode.not_found (runes "Ticket not found.")
create_order_status reserved = conflict (runes "Ticket is currently reserved.")
create_order_status unavailable_error = busy (runes "Unable to create order.")
create_order_status _ = failure (runes "Unable to create order.")

pub get_order_status : Error → Status
get_order_status order_not_found = order_missing
get_order_status _ = failure (runes "Unable to retrieve order.")

pub list_orders_status : Error → Status
list_orders_status _ = failure (runes "Unable to retrieve orders.")

-- The call behind a valid projection; there may be no repository.
unfoldable pub project :
    Option (Ticket → Db OrdersDb Error (Unit {0})) → Ticket → Db OrdersDb Status (Unit {0})
unfolding projection_status
project none input = raise (plain_error unavailable (runes "Projection repository unavailable"))
project (some ensure) input = handle projection_status (λ u. u) (unvalidated (ensure input))

module _ (uuid_parse : Text → Option ℕ) where
  abbrev pub value : Text → ℕ
  value id = elim (uuid_parse id) [ none ↦ 0 | some v ↦ v ]

  -- `EnsureTicketProjection`.
  unfoldable pub handle_ensure_ticket_projection :
      Option (Ticket → Db OrdersDb Error (Unit {0}))
      → ProjectionRequest
      → Db OrdersDb Status (Unit {0})
  unfolding project
  handle_ensure_ticket_projection projection request =
      let input : Ticket = record {
        id = value request.id;
        title = request.title;
        price = request.price;
        aggregate_version = request.aggregate_version;
      } in
      if validate_projection uuid_parse request.id input
      then project projection input
      else raise (plain_error Grpc.invalid_argument (runes "Invalid ticket projection"))

  -- `StartPayment`.
  unfoldable pub handle_start_payment : Text → Text → Db OrdersDb Status WireOrder
  unfolding start_payment_status to_payment_order_response
  handle_start_payment order_id user_id =
      handle start_payment_status to_payment_order_response
        (start_checkout uuid_parse order_id user_id)

  -- `GetOrder`.
  pub handle_get_order : Text → Text → Db OrdersDb Status OrderResponse
  unfolding get_order_status to_order_response
  handle_get_order order_id user_id =
      handle get_order_status to_order_response (get_order uuid_parse order_id user_id)

  -- `ListOrders` and `toListOrdersResponse`.
  pub handle_list_orders : Text → Db OrdersDb Status (List OrderResponse)
  unfolding list_orders_status to_order_response
  handle_list_orders user_id =
      handle list_orders_status (map to_order_response) (list_orders uuid_parse user_id)

  module _ (coordinator : Coordinator) where
    -- `ResolvePayment`.
    pub handle_resolve_payment : Text → WireOutcome → Db OrdersDb Status OrderResponse
    unfolding resolve_payment_status to_order_response to_payment_outcome
    handle_resolve_payment order_id outcome =
        handle resolve_payment_status to_order_response
          (resolve_payment uuid_parse coordinator order_id (to_payment_outcome outcome))

    -- `CancelOrder`.
    pub handle_cancel_order : Text → Text → Db OrdersDb Status OrderResponse
    unfolding cancel_order_status to_order_response
    handle_cancel_order order_id user_id =
        handle cancel_order_status to_order_response
          (cancel_order uuid_parse coordinator order_id user_id)

    -- `CreateOrder`, at the time that the service's clock gives.
    pub handle_create_order : ℕ → Text → Text → Db OrdersDb Status CreateOrderResponse
    unfolding create_order_status to_create_order_response
    handle_create_order now ticket_id user_id =
        handle create_order_status to_create_order_response
          (reserve_ticket uuid_parse coordinator now ticket_id user_id)
