-- ===== src/Creation/TicketCreation/History.antt =====
-- Histories of the tickets: their creations and updates by the workflows, in any order and each with
-- whatever goes wrong in it, among the claims of tickets and the calls of Orders.
pub mod Synced
pub mod Attempts
pub mod Ready
pub mod InStep
pub mod Copies
use polyglot_ticketing_v.Base.{ℕ, List, [], ◌∷◌, ◌++◌, Option, none, some, Text}
use polyglot_ticketing_v.Base.Lists.{get_elem?, set}
use polyglot_ticketing_v.Base.Db.{Fault, Session, Db}
use polyglot_ticketing_v.World.{World, on_orders, on_tickets}
use polyglot_ticketing_v.Orders.Model.{PaymentOutcome, TicketReservationInput}
use polyglot_ticketing_v.Orders.Repository.{
  reserve_ticket, expire_created_order, start_payment, resolve_payment, cancel_by_id_and_user,
}
use polyglot_ticketing_v.Tickets.Repository.{reserve_for_order, release_order_reservation}
use polyglot_ticketing_v.Tickets.Repository.Recorded.{Draft}
use polyglot_ticketing_v.Creation.TicketCreation.{
  Input, UpdateTicketInput, TicketFlow, create_ticket_workflow, advance,
}
use polyglot_ticketing_v.Creation.TicketCreation.UpdateWorkflow.{
  UpdateRun, new_run, accept, lock, continue_as_new, carry_on,
}

-- The workflows of creations and of updates that have been started, and the databases.
pub record System : Type 0 where
  pub creations : List TicketFlow
  pub updates : List UpdateRun
  pub world : World

-- No workflow has been started.
abbrev pub idle : World → System
idle w = record { creations = []; updates = []; world = w }

pub data Event : Type 0 where
  -- A creation begins, with the UUID that it has for its ticket, and goes on.
  begin_creation : ℕ → Event
  go_on_creation : ℕ → List Fault → Event
  -- A workflow of updates is started; the one at an index accepts an update, gives one of those that wait
  -- the lock, goes on, and starts afresh.
  begin_updates : Event
  accept_update : ℕ → UpdateTicketInput → Event
  lock_update : ℕ → ℕ → Event
  go_on_update : ℕ → List Fault → Event
  renew_updates : ℕ → Event
  claim : ℕ → ℕ → List Fault → Event
  release : ℕ → ℕ → List Fault → Event
  reserve_order : ℕ → TicketReservationInput → List Fault → Event
  expire_order : ℕ → ℕ → List Fault → Event
  pay_order : ℕ → Text → List Fault → Event
  resolve_order : ℕ → PaymentOutcome → List Fault → Event
  cancel_order : ℕ → Text → List Fault → Event

-- The databases behind a call, whatever it answers.
abbrev pub behind : {E A : Type 0} → Db World E A → List Fault → System → System
behind call faults sys = record sys {
  world = (call (record { tables = sys.world; faults = faults })).1.tables;
}

abbrev pub creation_moved : ℕ → System → TicketFlow × World → System
creation_moved i sys (f, w) = record sys { creations = set sys.creations i f; world = w }

abbrev pub run_moved : ℕ → System → UpdateRun × World → System
run_moved i sys (r, w) = record sys { updates = set sys.updates i r; world = w }

-- The run of updates at an index does something by itself.
abbrev pub on_run : ℕ → (UpdateRun → UpdateRun) → System → Option UpdateRun → System
on_run i f sys none = sys
on_run i f sys (some r) = run_moved i sys (f r, sys.world)

module _ (uuid_parse : Text → Option ℕ) (uuid_text : ℕ → Text) (origin : ℕ → Draft) where
  -- The input of the creation whose ticket has a UUID.
  abbrev pub input_of : ℕ → Input
  input_of id = record {
    id = uuid_text id;
    title = (origin id).title;
    price = (origin id).price;
    user_id = (origin id).user_id;
  }

  abbrev pub creation_goes_on : ℕ → List Fault → System → Option TicketFlow → System
  creation_goes_on i faults sys none = sys
  creation_goes_on i faults sys (some f) =
      creation_moved i sys (advance uuid_parse uuid_text 0 faults f sys.world)

  abbrev pub run_goes_on : ℕ → List Fault → System → Option UpdateRun → System
  run_goes_on i faults sys none = sys
  run_goes_on i faults sys (some r) =
      run_moved i sys (carry_on uuid_parse uuid_text faults r sys.world)

  unfoldable pub step : Event → System → System
  step (begin_creation id) sys = record sys {
    creations = sys.creations ++ create_ticket_workflow (input_of id) ∷ [];
  }
  step (go_on_creation i faults) sys = creation_goes_on i faults sys (get_elem? sys.creations i)
  step begin_updates sys = record sys { updates = sys.updates ++ new_run ∷ [] }
  step (accept_update i input) sys = on_run i (accept input) sys (get_elem? sys.updates i)
  step (lock_update i j) sys = on_run i (lock j) sys (get_elem? sys.updates i)
  step (go_on_update i faults) sys = run_goes_on i faults sys (get_elem? sys.updates i)
  step (renew_updates i) sys = on_run i continue_as_new sys (get_elem? sys.updates i)
  step (claim ticket order faults) sys =
      behind (on_tickets (reserve_for_order ticket order)) faults sys
  step (release ticket order faults) sys =
      behind (on_tickets (release_order_reservation ticket order)) faults sys
  step (reserve_order random_id input faults) sys =
      behind (on_orders (reserve_ticket random_id input)) faults sys
  step (expire_order now id faults) sys =
      behind (on_orders (expire_created_order now id)) faults sys
  step (pay_order id user faults) sys = behind (on_orders (start_payment id user)) faults sys
  step (resolve_order id outcome faults) sys =
      behind (on_orders (resolve_payment id outcome)) faults sys
  step (cancel_order id user faults) sys =
      behind (on_orders (cancel_by_id_and_user id user)) faults sys

  unfoldable pub run : List Event → System → System
  run [] sys = sys
  run (e ∷ es) sys = run es (step e sys)
