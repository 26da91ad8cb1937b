-- ===== src/Reservation/Activities.antt =====
-- apps/orders/internal/reservation/activities.go: one attempt at each activity. The client of
-- Tickets calls the handlers of its server.
pub mod Steps
pub mod Calm
use polyglot_ticketing_v.Base.{ℕ, Option, Text}
use polyglot_ticketing_v.Base.Db.{Db}
use polyglot_ticketing_v.Base.Grpc.{
  Status, Code, not_found, already_exists, invalid_argument, permission_denied, unauthenticated,
  unimplemented,
}
use polyglot_ticketing_v.Base.Temporal.{
  Failure, non_retryable, other_failure, projected_ticket_not_found, ticket_already_reserved,
  invalid_ticket_reservation, order_not_cancelable,
}
use polyglot_ticketing_v.Base.Temporal
use polyglot_ticketing_v.World.{World, on_orders, on_tickets, map_err, rpc}
use polyglot_ticketing_v.Orders.Model.{
  Error, reserved, order_not_payable, Order, PaymentOutcome, TicketReservationInput,
  ReservationResult, ExpirationResult, PaymentResolutionResult,
}
use polyglot_ticketing_v.Orders.Model
use polyglot_ticketing_v.Orders.Repository.{
  reserve_ticket, cancel_by_id_and_user, expire_created_order,
}
use polyglot_ticketing_v.Orders.Repository
use polyglot_ticketing_v.Tickets.Server.{handle_reserve, handle_release}

-- `CancelInput`, `ExpireInput` and `ResolvePaymentInput` of workflow.go.
pub record CancelInput : Type 0 where
  pub order_id : ℕ
  pub user_id : Text

pub record ExpireInput : Type 0 where
  pub expires_at : ℕ
  pub order_id : ℕ
  pub ticket_id : ℕ

pub record ResolvePaymentInput : Type 0 where
  pub order_id : ℕ
  pub outcome : PaymentOutcome

-- The failure of each activity by its error.
unfoldable pub reserve_failure : Error → Failure
reserve_failure Model.not_found = non_retryable projected_ticket_not_found
reserve_failure Model.reserved = non_retryable ticket_already_reserved
reserve_failure _ = other_failure

unfoldable pub cancel_failure : Error → Failure
cancel_failure Model.order_not_found = non_retryable Temporal.order_not_found
cancel_failure Model.order_not_cancelable = non_retryable Temporal.order_not_cancelable
cancel_failure _ = other_failure

unfoldable pub expire_failure : Error → Failure
expire_failure Model.order_not_found = non_retryable Temporal.order_not_found
expire_failure _ = other_failure

unfoldable pub resolve_failure : Error → Failure
resolve_failure Model.order_not_found = non_retryable Temporal.order_not_found
resolve_failure Model.order_not_payable = non_retryable Temporal.order_not_payable
resolve_failure _ = other_failure

unfoldable pub code_failure : Code → Failure
code_failure not_found = non_retryable projected_ticket_not_found
code_failure already_exists = non_retryable ticket_already_reserved
code_failure invalid_argument = non_retryable invalid_ticket_reservation
code_failure permission_denied = non_retryable invalid_ticket_reservation
code_failure unauthenticated = non_retryable invalid_ticket_reservation
code_failure unimplemented = non_retryable invalid_ticket_reservation
code_failure _ = other_failure

-- `reservationRPCError`.
unfoldable pub reservation_rpc_error : Status → Failure
unfolding code_failure
reservation_rpc_error status = code_failure status.code

-- `ReserveOrder`; `random_id` is what gen_random_uuid() would give.
unfoldable pub reserve_order : ℕ → TicketReservationInput → Db World Failure ReservationResult
unfolding reserve_failure
reserve_order random_id input = map_err reserve_failure (on_orders (reserve_ticket random_id input))

-- `CancelOrder`.
unfoldable pub cancel_order : CancelInput → Db World Failure Order
unfolding cancel_failure
cancel_order input =
    map_err cancel_failure (on_orders (cancel_by_id_and_user input.order_id input.user_id))

-- `ExpireOrder`, at the statement's NOW().
pub expire_order : ℕ → ℕ → Db World Failure ExpirationResult
unfolding expire_failure
expire_order now order_id = map_err expire_failure (on_orders (expire_created_order now order_id))

-- `ResolvePayment`.
unfoldable pub resolve_payment : ResolvePaymentInput → Db World Failure PaymentResolutionResult
unfolding resolve_failure
resolve_payment input =
    map_err resolve_failure (on_orders (Repository.resolve_payment input.order_id input.outcome))

-- Ids go over gRPC as texts, and the server parses them.
module _ (uuid_parse : Text → Option ℕ) (uuid_text : ℕ → Text) where
  -- `ClaimTicket`.
  unfoldable pub claim_ticket : Order → Db World Failure (Unit {0})
  unfolding reservation_rpc_error
  claim_ticket reservation = map_err reservation_rpc_error (
      rpc (
        on_tickets
          (handle_reserve uuid_parse (uuid_text reservation.ticket_id) (uuid_text reservation.id))))

  -- `ReleaseTicket`.
  unfoldable pub release_ticket : Order → Db World Failure (Unit {0})
  unfolding reservation_rpc_error
  release_ticket found = map_err reservation_rpc_error (
      rpc (on_tickets (handle_release uuid_parse (uuid_text found.ticket_id) (uuid_text found.id))))
