-- ===== src/Reservation/System.antt =====
-- The workflows of Orders at work: any number of them, one attempt at one activity at a time, in any
-- order, among the calls that the services answer directly.
pub mod Frees
pub mod Progress
use polyglot_ticketing_v.Base.{
  ℕ, zero, suc, List, [], ◌∷◌, ◌++◌, Option, none, some, Text, Result, ok, err, leb, if◌then◌else◌,
}
use polyglot_ticketing_v.Base.Db.{Fault, healthy, rejected, lost, Session, Db, next_fault}
use polyglot_ticketing_v.Base.Temporal.{Failure, non_retryable, other_failure}
use polyglot_ticketing_v.World.{World, on_orders, on_tickets}
use polyglot_ticketing_v.Orders.Model.{Ticket, TicketReservationInput}
use polyglot_ticketing_v.Orders.Repository.{start_payment}
use polyglot_ticketing_v.Orders.Projection.{ensure_ticket_projection}
use polyglot_ticketing_v.Tickets.Model.{CreateInput, UpdateInput}
use polyglot_ticketing_v.Tickets.Repository.{create, update_with_idempotency}
use polyglot_ticketing_v.Reservation.Activities
use polyglot_ticketing_v.Reservation.Activities.{CancelInput, ExpireInput, ResolvePaymentInput}
use polyglot_ticketing_v.Reservation.Workflow.{
  Flow, finish, reserve_order, claim_ticket, cancel_order, expire_order, resolve_payment,
  release_ticket, start_child, sleep_until, create_order_workflow, cancel_order_workflow,
  expire_order_workflow, resolve_payment_workflow,
}

-- What a step of a workflow leaves: the rest of it, a child that it started, and the databases.
pub record Moved : Type 0 where
  pub rest : Flow
  pub child : Option Flow
  pub world : World

abbrev pub moved : Flow → World → Moved
moved rest world = record { rest = rest; child = none; world = world }

-- What follows an attempt: the next part, the end, or another attempt at some later time.
abbrev pub follow : {A : Type 0} → Flow → (A → Flow) → Result Failure A → Flow
follow again next (ok a) = next a
follow again next (err (non_retryable t)) = finish (err (non_retryable t))
follow again next (err other_failure) = again

abbrev pub attempt :
    {A : Type 0} → Db World Failure A → Flow → (A → Flow) → List Fault → World → Moved
attempt activity again next faults w =
    let (r, s) = activity (record { tables = w; faults = faults }) in
    moved (follow again next r) s.tables

-- A child that is not started ends its parent.
abbrev pub spawn : Fault → ExpireInput → Flow → World → Moved
spawn healthy input next w = record {
  rest = next;
  child = some (expire_order_workflow input);
  world = w;
}
spawn (rejected _) input next w = moved (finish (err other_failure)) w
spawn (lost _) input next w = moved (finish (err other_failure)) w

module _ (uuid_parse : Text → Option ℕ) (uuid_text : ℕ → Text) where
  -- One step of a workflow, at a time, with what gen_random_uuid() would give.
  unfoldable pub advance : ℕ → ℕ → List Fault → Flow → World → Moved
  advance now random_id faults (finish r) w = moved (finish r) w
  advance now random_id faults (reserve_order input next) w =
      attempt (Activities.reserve_order random_id input) (reserve_order input next) next faults w
  advance now random_id faults (claim_ticket order next) w =
      attempt (Activities.claim_ticket uuid_parse uuid_text order) (claim_ticket order next)
        (λ _. next) faults w
  advance now random_id faults (cancel_order input next) w =
      attempt (Activities.cancel_order input) (cancel_order input next) next faults w
  advance now random_id faults (expire_order id next) w =
      attempt (Activities.expire_order now id) (expire_order id next) next faults w
  advance now random_id faults (resolve_payment input next) w =
      attempt (Activities.resolve_payment input) (resolve_payment input next) next faults w
  advance now random_id faults (release_ticket order next) w =
      attempt (Activities.release_ticket uuid_parse uuid_text order) (release_ticket order next)
        (λ _. next) faults w
  advance now random_id faults (start_child input next) w = spawn (next_fault faults) input next w
  advance now random_id faults (sleep_until deadline next) w =
      moved (if leb deadline now then next else sleep_until deadline next) w
