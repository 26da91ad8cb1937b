-- ===== src/Reservation/Coordinator/Failures.antt =====
-- Errors on their way from an activity through its workflow back to the service.
use polyglot_ticketing_v.Base.{◌≡◌, refl}
use polyglot_ticketing_v.Base.Temporal.{FailureType, Failure, non_retryable}
use polyglot_ticketing_v.Orders.Model.{Error}
use polyglot_ticketing_v.Orders.Model
use polyglot_ticketing_v.Reservation.Activities.{reserve_failure, cancel_failure, resolve_failure}
use polyglot_ticketing_v.Reservation.Coordinator.{type_error, reservation_workflow_error}

-- The activities on the repository of Orders in the workflows that a coordinator waits for; no one waits
-- for an expiry.
pub data OrderActivity : Type 0 where
  reserving canceling resolving : OrderActivity

-- The failure that an activity makes of an error of the repository.
abbrev pub failure_of : OrderActivity → Error → Failure
failure_of reserving e = reserve_failure e
failure_of canceling e = cancel_failure e
failure_of resolving e = resolve_failure e

reserve_failure-returns :
    (e : Error) (t : FailureType)
    → reserve_failure e ≡ non_retryable t
    → reservation_workflow_error (reserve_failure e) ≡ e
unfolding reserve_failure reservation_workflow_error type_error
reserve_failure-returns Model.not_found t h = refl
reserve_failure-returns Model.reserved t h = refl
reserve_failure-returns _ t h = cc

cancel_failure-returns :
    (e : Error) (t : FailureType)
    → cancel_failure e ≡ non_retryable t
    → reservation_workflow_error (cancel_failure e) ≡ e
unfolding cancel_failure reservation_workflow_error type_error
cancel_failure-returns Model.order_not_found t h = refl
cancel_failure-returns Model.order_not_cancelable t h = refl
cancel_failure-returns _ t h = cc

resolve_failure-returns :
    (e : Error) (t : FailureType)
    → resolve_failure e ≡ non_retryable t
    → reservation_workflow_error (resolve_failure e) ≡ e
unfolding resolve_failure reservation_workflow_error type_error
resolve_failure-returns Model.order_not_found t h = refl
resolve_failure-returns Model.order_not_payable t h = refl
resolve_failure-returns _ t h = cc

-- An error of the repository that the activity of a reservation, a cancellation or a payment's
-- resolution reports as a failure that is not retried comes back to the service, out of the failed
-- workflow, as the same error.
pub failure_of-returns :
    (a : OrderActivity) (e : Error) (t : FailureType)
    → failure_of a e ≡ non_retryable t
    → reservation_workflow_error (failure_of a e) ≡ e
failure_of-returns reserving e t h = reserve_failure-returns e t h
failure_of-returns canceling e t h = cancel_failure-returns e t h
failure_of-returns resolving e t h = resolve_failure-returns e t h
