-- ===== src/Base/Temporal.antt =====
-- How an activity or a workflow fails, as Temporal sees it: an application failure that is not
-- retried, by its type, or any other error, after which an activity is tried again.
use mathlib.Core.Option.{Option, none, some}
use polyglot_ticketing_v.Base.Strings.{Text}
use polyglot_ticketing_v.Base.Outcome.{Result, ok, err}

pub data FailureType : Type 0 where
  projected_ticket_not_found ticket_already_reserved invalid_ticket_reservation : FailureType
  order_not_found order_not_cancelable order_not_payable : FailureType
  invalid_ticket invalid_ticket_update invalid_projection : FailureType
  ticket_update_forbidden ticket_update_reserved ticket_update_not_found : FailureType

pub data Failure : Type 0 where
  non_retryable : FailureType → Failure
  other_failure : Failure

-- What starting a workflow reports where it does not give a run: one with its id is running, by the
-- id of that run; or anything else.
pub data StartError : Type 0 where
  already_started : Text → StartError
  not_started : StartError

-- What waiting for a run reports: the caller's time is over, Temporal is unavailable, the workflow has
-- failed, or anything else.
pub data WaitError : Type 0 where
  timed_out temporal_unavailable : WaitError
  workflow_failed : Failure → WaitError
  another_error : WaitError

-- What the coordinators use of Temporal's client, for workflows `W` that return an `A`.
pub record Client (W A Run : Type 0) : Type 0 where
  pub execute_workflow : Text → W → Result StartError Run
  pub get_workflow : Text → Text → Run
  pub get : Run → Result WaitError A

-- `run, err := ExecuteWorkflow(…)`, joining the run that is there where it is already started; no run
-- is any other error.
abbrev pub joined : {W A Run : Type 0} → Client W A Run → Text → Result StartError Run → Option Run
joined client workflow_id (ok run) = some run
joined client workflow_id (err (already_started run_id)) =
    some (client.get_workflow workflow_id run_id)
joined client workflow_id (err not_started) = none

abbrev pub start_or_join : {W A Run : Type 0} → Client W A Run → Text → W → Option Run
start_or_join client workflow_id flow =
    joined client workflow_id (client.execute_workflow workflow_id flow)

-- What is made of a run: its value, or an error by what waiting for it reports, or the error for no run.
abbrev pub await_run :
    {W A Run E : Type 0} → Client W A Run → E → (WaitError → E) → Option Run → Result E A
await_run client no_run wait_error none = err no_run
await_run client no_run wait_error (some run) = elim (client.get run) [
  | ok a ↦ ok a
  | err e ↦ err (wait_error e)
]
