-- ===== src/Creation/TicketCreation/UpdateWorkflow/Steps.antt =====
-- A workflow of updates as steps: the updates of one ticket, each in its turn.
use polyglot_ticketing_v.Base.{ℕ, ◌≡◌, ◌⊎◌, List, Option, none, some, Text}
use polyglot_ticketing_v.Base.Int.{pos, suc_ℤ}
use polyglot_ticketing_v.Base.Table.{lookup}
use polyglot_ticketing_v.Base.Db.{Fault}
use polyglot_ticketing_v.World.{World}
use polyglot_ticketing_v.Orders.Model as Orders
use polyglot_ticketing_v.Tickets.Model.{TicketRow}
use polyglot_ticketing_v.Tickets.Repository.Recorded.{Draft}
use polyglot_ticketing_v.Creation.TicketCreation.{UpdateTicketInput, TicketFlow}
use polyglot_ticketing_v.Creation.TicketCreation.UpdateWorkflow.{
  UpdateRun, accept, lock, continue_as_new, carry_on,
}
use polyglot_ticketing_v.Creation.TicketCreation.UpdateWorkflow.Stages.{copy_of, IsCertain}
use polyglot_ticketing_v.Creation.TicketCreation.History.Synced.{Kept}

-- A workflow of updates, and the databases.
pub record Point : Type 0 where
  pub updates : UpdateRun
  pub world : World

module _ (uuid_parse : Text → Option ℕ) (uuid_text : ℕ → Text) (origin : ℕ → Draft)
    (ticket : ℕ) where
  -- Others have written, who leave the ticket's row as it is but for its reservation, and its copy.
  pub record Elsewhere (w u : World) : Type 0 where
    pub kept : Kept origin w u
    pub same_row :
        (row : TicketRow)
        → lookup ticket w.tickets.tickets ≡ some row
        → (row' : TicketRow) × (lookup ticket u.tickets.tickets ≡ some row')
          × (copy_of row' ≡ copy_of row)
    pub same_copy : lookup ticket u.orders.tickets ≡ lookup ticket w.orders.tickets

  -- The attempt of the handler with the lock is not one whose commit's answer is lost.
  abbrev pub IsCertainHold : Option TicketFlow → List Fault → World → Type 0
  IsCertainHold none faults w = Unit
  IsCertainHold (some f) faults w = IsCertain uuid_parse uuid_text f faults w

  -- One step of the workflow. It starts afresh with no handler at work.
  pub data Turn : Point → Point → Type 0 where
    accepted :
        (r : UpdateRun) (w : World) (input : UpdateTicketInput)
        → uuid_parse input.id ≡ some ticket
        → Turn (record { updates = r; world = w }) (record { updates = accept input r; world = w })
    locked :
        (r : UpdateRun) (w : World) (i : ℕ)
        → Turn (record { updates = r; world = w }) (record { updates = lock i r; world = w })
    carried :
        (r : UpdateRun) (w : World) (faults : List Fault)
        → IsCertainHold r.holder faults w
        → Turn
            (record { updates = r; world = w })
            (record {
              updates = (carry_on uuid_parse uuid_text faults r w).0;
              world = (carry_on uuid_parse uuid_text faults r w).1;
            })
    renewed :
        (r : UpdateRun) (w : World)
        → r.holder ≡ none
        → Turn
            (record { updates = r; world = w })
            (record { updates = continue_as_new r; world = w })
    elsewhere :
        (r : UpdateRun) (w u : World)
        → Elsewhere w u
        → Turn (record { updates = r; world = w }) (record { updates = r; world = u })

  -- Any number of steps.
  pub data Turns : Point → Point → Type 0 where
    stay : (p : Point) → Turns p p
    go : (p q r : Point) → Turn p q → Turns q r → Turns p r

-- Orders' copy of the ticket is Tickets' row, or one version behind it while some handler has the lock.
abbrev pub IsInStep : ℕ → Option TicketFlow → World → Type 0
IsInStep ticket holder w =
    (row : TicketRow) × (copy : Orders.TicketRow) × (lookup ticket w.tickets.tickets ≡ some row)
    × (lookup ticket w.orders.tickets ≡ some copy)
    × ((copy ≡ copy_of row)
        ⊎ ((suc_ℤ copy.aggregate_version ≡ pos row.aggregate_version)
            × ((f : TicketFlow) × (holder ≡ some f))))
