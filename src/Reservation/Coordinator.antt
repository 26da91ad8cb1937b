-- ===== src/Reservation/Coordinator.antt =====
-- apps/orders/internal/reservation/coordinator.go: what the service asks of Temporal. The id of a new
-- order, which uuid.NewString() gives, is an argument.
pub mod Failures
pub mod Refused
use polyglot_ticketing_v.Base.{
  ℕ, ◌++◌, List, [], ◌∷◌, Option, some, none, Text, runes, Result, ok, err,
}
use polyglot_ticketing_v.Base.Temporal.{
  FailureType, projected_ticket_not_found, ticket_already_reserved, order_not_found,
  order_not_cancelable, order_not_payable, Failure, non_retryable, other_failure, StartError,
  WaitError, timed_out, workflow_failed, Client, start_or_join, await_run,
}
use polyglot_ticketing_v.Orders.Model.{
  Error, not_found, reserved, unavailable, Order, TicketReservationInput, ReservationResult,
  PaymentOutcome, failed, succeeded, unspecified,
}
use polyglot_ticketing_v.Orders.Model
use polyglot_ticketing_v.Reservation.Activities.{CancelInput, ResolvePaymentInput}
use polyglot_ticketing_v.Reservation.Workflow.{
  Flow, create_order_workflow, cancel_order_workflow, resolve_payment_workflow,
}

type_error : FailureType → Error
type_error projected_ticket_not_found = not_found
type_error ticket_already_reserved = reserved
type_error order_not_found = Model.order_not_found
type_error order_not_cancelable = Model.order_not_cancelable
type_error order_not_payable = Model.order_not_payable
type_error _ = unavailable

-- `reservationWorkflowError`.
pub reservation_workflow_error : Failure → Error
unfolding type_error
reservation_workflow_error (non_retryable t) = type_error t
reservation_workflow_error other_failure = unavailable

-- What the coordinator's methods make of the error of `run.Get`.
pub wait_error : WaitError → Error
unfolding reservation_workflow_error
wait_error timed_out = unavailable
wait_error (workflow_failed f) = reservation_workflow_error f
wait_error _ = unavailable

-- `ExecuteWorkflow` where any error is final.
abbrev start : {A Run : Type 0} → Client Flow A Run → Text → Flow → Option Run
start client workflow_id flow = elim (client.execute_workflow workflow_id flow) [
  | ok run ↦ some run
  | err _ ↦ none
]

-- The string of a payment outcome.
abbrev outcome_string : PaymentOutcome → Text
outcome_string failed = runes "Failed"
outcome_string succeeded = runes "Succeeded"
outcome_string unspecified = []

module _ {Run : Type 0} (uuid_text : ℕ → Text) where
  -- `ReserveTicket`.
  pub reserve_ticket :
      Client Flow ReservationResult Run
      → ℕ
      → TicketReservationInput
      → Result Error ReservationResult
  unfolding wait_error
  reserve_ticket client new_id input =
      let named : TicketReservationInput = record input { order_id = some new_id } in
      await_run client unavailable wait_error
        (start client (runes "create-order/" ++ uuid_text new_id) (create_order_workflow named))

  -- `CancelOrder`.
  pub cancel_order : Client Flow Order Run → ℕ → Text → Result Error Order
  unfolding wait_error
  cancel_order client order_id user_id = await_run client unavailable wait_error (
      start_or_join client (runes "cancel-order/" ++ uuid_text order_id)
        (cancel_order_workflow (record { order_id = order_id; user_id = user_id })))

  -- `ResolvePaymentOutcome`.
  pub resolve_payment_outcome : Client Flow Order Run → ℕ → PaymentOutcome → Result Error Order
  unfolding wait_error
  resolve_payment_outcome client order_id outcome = await_run client unavailable wait_error (
      start_or_join client
        (runes "resolve-payment/" ++ uuid_text order_id ++ runes "/" ++ outcome_string outcome)
        (resolve_payment_workflow (record { order_id = order_id; outcome = outcome })))
