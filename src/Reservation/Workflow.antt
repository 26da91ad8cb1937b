-- ===== src/Reservation/Workflow.antt =====
-- apps/orders/internal/reservation/workflow.go. A workflow is the tree of what it waits for: an
-- activity's answer, a child workflow's start or a time. An activity that fails for good ends it with
-- that failure, as each workflow of the source returns the error that `Get` gives.
pub mod Starts
use polyglot_ticketing_v.Base.{ℕ, true, false, Result, ok, if◌then◌else◌}
use polyglot_ticketing_v.Base.Temporal.{Failure}
use polyglot_ticketing_v.Orders.Model.{
  Order, TicketReservationInput, ReservationResult, ExpirationResult, PaymentResolutionResult,
}
use polyglot_ticketing_v.Reservation.Activities.{CancelInput, ExpireInput, ResolvePaymentInput}

-- What a workflow returns.
pub data Answer : Type 0 where
  reservation_made : ReservationResult → Answer
  order_canceled : Order → Answer
  expiry_done : Answer
  payment_resolved : Order → Answer

pub data Flow : Type 0 where
  finish : Result Failure Answer → Flow
  reserve_order : TicketReservationInput → (ReservationResult → Flow) → Flow
  claim_ticket : Order → Flow → Flow
  cancel_order : CancelInput → (Order → Flow) → Flow
  expire_order : ℕ → (ExpirationResult → Flow) → Flow
  resolve_payment : ResolvePaymentInput → (PaymentResolutionResult → Flow) → Flow
  release_ticket : Order → Flow → Flow
  start_child : ExpireInput → Flow → Flow
  sleep_until : ℕ → Flow → Flow

-- `CreateOrderWorkflow`.
unfoldable pub create_order_workflow : TicketReservationInput → Flow
create_order_workflow input = reserve_order input λ reservation. claim_ticket reservation.order (
    if reservation.created
    then start_child
        (record {
          expires_at = reservation.order.expires_at;
          order_id = reservation.order.id;
          ticket_id = reservation.order.ticket_id;
        })
        (finish (ok (reservation_made reservation)))
    else finish (ok (reservation_made reservation)))

-- `CancelOrderWorkflow`.
unfoldable pub cancel_order_workflow : CancelInput → Flow
cancel_order_workflow input =
    cancel_order input λ canceled. release_ticket canceled (finish (ok (order_canceled canceled)))

-- `ExpireOrderWorkflow`; it sleeps for what is left until the deadline.
pub expire_order_workflow : ExpireInput → Flow
expire_order_workflow input = sleep_until input.expires_at (
    expire_order input.order_id λ expiration.
      if expiration.should_release_ticket
      then release_ticket expiration.order (finish (ok expiry_done))
      else finish (ok expiry_done))

-- `ResolvePaymentWorkflow`.
unfoldable pub resolve_payment_workflow : ResolvePaymentInput → Flow
resolve_payment_workflow input = resolve_payment input λ resolution.
    if resolution.should_release_ticket
    then release_ticket resolution.order (finish (ok (payment_resolved resolution.order)))
    else finish (ok (payment_resolved resolution.order))
