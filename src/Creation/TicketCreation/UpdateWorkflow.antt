-- ===== src/Creation/TicketCreation/UpdateWorkflow.antt =====
-- apps/tickets/internal/creation/update_workflow.go: the workflow that stays open for the updates of
-- one ticket, with the lock that its handlers take in turn, and the count at which it starts afresh.
pub mod Stages
pub mod Turns
pub mod Steps
pub mod InTurn
pub mod Levels
pub mod Others
pub mod Calm
use polyglot_ticketing_v.Base.{
  ℕ, suc, leb, List, [], ◌∷◌, ◌++◌, Option, none, some, if◌then◌else◌, Text, Result, ok, err,
}
use polyglot_ticketing_v.Base.Lists.{get_elem?, erase}
use polyglot_ticketing_v.Base.Db.{Fault}
use polyglot_ticketing_v.Base.Temporal.{Failure}
use polyglot_ticketing_v.World.{World}
use polyglot_ticketing_v.Tickets.Model.{Ticket}
use polyglot_ticketing_v.Creation.TicketCreation.{
  UpdateTicketInput, TicketFlow, finish, update_ticket_handler, advance,
}

-- One run: the updates accepted whose handlers wait for the lock, what is left of the handler that has
-- it, what the handlers that are through answered, and `completedUpdates`.
pub record UpdateRun : Type 0 where
  pub waiting : List UpdateTicketInput
  pub holder : Option TicketFlow
  pub answers : List (Result Failure Ticket)
  pub completed_updates : ℕ

-- `maxUpdatesPerWorkflow`.
abbrev pub max_updates_per_workflow : ℕ
max_updates_per_workflow = 100

-- The start of a run.
abbrev pub new_run : UpdateRun
new_run = record { waiting = []; holder = none; answers = []; completed_updates = 0 }

-- An update is accepted: its handler begins, and waits for the lock.
unfoldable pub accept : UpdateTicketInput → UpdateRun → UpdateRun
accept input r = record r { waiting = r.waiting ++ input ∷ [] }

abbrev pub locked_by : ℕ → Option UpdateTicketInput → UpdateRun → UpdateRun
locked_by i none r = r
locked_by i (some input) r = record r {
  waiting = erase r.waiting i;
  holder = some (update_ticket_handler input);
}

abbrev pub lock_if : Option TicketFlow → ℕ → UpdateRun → UpdateRun
lock_if none i r = locked_by i (get_elem? r.waiting i) r
lock_if (some f) i r = r

-- `mutex.Lock`: the handler at an index of those that wait has the lock, where no other has it.
unfoldable pub lock : ℕ → UpdateRun → UpdateRun
lock i r = lock_if r.holder i r

-- The handler that has the lock has come to this; where it is through, the lock is free, and an update
-- that went well is counted.
unfoldable pub unlock_if_through : TicketFlow → UpdateRun → UpdateRun
unlock_if_through (finish (ok t)) r = record r {
  holder = none;
  answers = r.answers ++ ok t ∷ [];
  completed_updates = suc r.completed_updates;
}
unlock_if_through (finish (err e)) r = record r { holder = none; answers = r.answers ++ err e ∷ [] }
unlock_if_through f r = record r { holder = some f }

-- `workflow.Await` and NewContinueAsNewError behind it: a new run, which has none of the handlers.
unfoldable pub continue_as_new : UpdateRun → UpdateRun
continue_as_new r = if leb max_updates_per_workflow r.completed_updates then new_run else r

module _ (uuid_parse : Text → Option ℕ) (uuid_text : ℕ → Text) where
  abbrev pub hold_on : List Fault → Option TicketFlow → UpdateRun → World → UpdateRun × World
  hold_on faults none r w = (r, w)
  hold_on faults (some f) r w =
      let (g, u) = advance uuid_parse uuid_text 0 faults f w in (unlock_if_through g r, u)

  -- One attempt at the activity that the handler with the lock waits for.
  unfoldable pub carry_on : List Fault → UpdateRun → World → UpdateRun × World
  carry_on faults r w = hold_on faults r.holder r w
