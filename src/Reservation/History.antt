-- ===== src/Reservation/History.antt =====
-- Histories of the whole: workflows of Orders started and carried on in any order, each with whatever
-- goes wrong in it, among the calls of Orders and of Tickets that write without them.
pub mod Claimed
pub mod Calm
use polyglot_ticketing_v.Base.{ℕ, zero, suc, List, [], ◌∷◌, ◌++◌, Option, none, some, Text}
use polyglot_ticketing_v.Base.Lists.{get_elem?, set}
use polyglot_ticketing_v.Base.Db.{Fault, Session, Db}
use polyglot_ticketing_v.World.{World, on_orders, on_tickets}
use polyglot_ticketing_v.Orders.Model.{Ticket, TicketReservationInput}
use polyglot_ticketing_v.Orders.Repository.{start_payment}
use polyglot_ticketing_v.Orders.Projection.{ensure_ticket_projection}
use polyglot_ticketing_v.Tickets.Model.{CreateInput, UpdateInput}
use polyglot_ticketing_v.Tickets.Repository.{create, update_with_idempotency}
use polyglot_ticketing_v.Reservation.Activities.{CancelInput, ResolvePaymentInput}
use polyglot_ticketing_v.Reservation.Workflow.{
  Flow, create_order_workflow, cancel_order_workflow, resolve_payment_workflow,
}
use polyglot_ticketing_v.Reservation.System.{Moved, advance}

-- The workflows that have been started, the finished ones among them, and the databases.
pub record System : Type 0 where
  pub running : List Flow
  pub world : World

-- No workflow has been started.
abbrev pub idle : World → System
idle w = record { running = []; world = w }

pub data Event : Type 0 where
  begin_create : TicketReservationInput → Event
  begin_cancel : CancelInput → Event
  begin_resolve : ResolvePaymentInput → Event
  -- The workflow at an index goes on, at a time, with what gen_random_uuid() would give.
  progress : ℕ → ℕ → ℕ → List Fault → Event
  pay : ℕ → Text → List Fault → Event
  project : Ticket → List Fault → Event
  create_ticket : ℕ → CreateInput → List Fault → Event
  edit_ticket : ℕ → UpdateInput → List Fault → Event

abbrev pub begin : Flow → System → System
begin f sys = record sys { running = sys.running ++ f ∷ [] }

-- The databases behind a call, whatever it answers.
abbrev pub behind : {E A : Type 0} → Db World E A → List Fault → System → System
behind call faults sys = record sys {
  world = (call (record { tables = sys.world; faults = faults })).1.tables;
}

abbrev pub with_child : Option Flow → List Flow → List Flow
with_child none fs = fs
with_child (some f) fs = fs ++ f ∷ []

-- The workflow at an index has moved.
abbrev pub settle : ℕ → List Flow → Moved → System
settle i fs m = record { running = with_child m.child (set fs i m.rest); world = m.world }

module _ (uuid_parse : Text → Option ℕ) (uuid_text : ℕ → Text) where
  abbrev pub go_on : ℕ → ℕ → ℕ → List Fault → System → Option Flow → System
  go_on i now random_id faults sys none = sys
  go_on i now random_id faults sys (some f) =
      settle i sys.running (advance uuid_parse uuid_text now random_id faults f sys.world)

  unfoldable pub step : Event → System → System
  step (begin_create input) sys = begin (create_order_workflow input) sys
  step (begin_cancel input) sys = begin (cancel_order_workflow input) sys
  step (begin_resolve input) sys = begin (resolve_payment_workflow input) sys
  step (progress i now random_id faults) sys =
      go_on i now random_id faults sys (get_elem? sys.running i)
  step (pay id user faults) sys = behind (on_orders (start_payment id user)) faults sys
  step (project ticket faults) sys = behind (on_orders (ensure_ticket_projection ticket)) faults sys
  step (create_ticket random_id input faults) sys =
      behind (on_tickets (create random_id input)) faults sys
  step (edit_ticket id input faults) sys =
      behind (on_tickets (update_with_idempotency id input)) faults sys

  unfoldable pub run : List Event → System → System
  run [] sys = sys
  run (e ∷ es) sys = run es (step e sys)
