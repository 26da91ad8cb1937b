-- ===== src/Creation/TicketCreation/History/Copies.antt =====
-- Orders' copies of the tickets in any history: none is ahead of Tickets.
use mathlib.Core.Option.{none-ne-some}
use polyglot_ticketing_v.Base.{ℕ, ◌≡◌, List, [], ◌∷◌, Option, some, Option-cases, Text, inl, inr}
use polyglot_ticketing_v.Base.Int.{pos}
use polyglot_ticketing_v.Base.Table.{lookup}
use polyglot_ticketing_v.Base.Lists.{get_elem?, get_elem?-All, ++-All}
use polyglot_ticketing_v.Payments.Model.{PaymentsDb}
use polyglot_ticketing_v.World.{World}
use polyglot_ticketing_v.Orders.Model as Orders
use polyglot_ticketing_v.Orders.Model.{OrdersDb, OrderRow}
use polyglot_ticketing_v.Orders.Repository.Copies.{
  reserve_ticket-Keeps, expire_created_order-Keeps, start_payment-Keeps, resolve_payment-Keeps,
  cancel_by_id_and_user-Keeps,
}
use polyglot_ticketing_v.Tickets.Repository.Recorded.{Recorded, Draft}
use polyglot_ticketing_v.Tickets.Repository.Rows.{
  reserve_for_order-Keeps, release_order_reservation-Keeps,
}
use polyglot_ticketing_v.Tickets.Repository.Snapshots.{From-KeptByClaims}
use polyglot_ticketing_v.Creation.TicketCreation.UpdateWorkflow.{
  new_run, accept, lock, continue_as_new,
}
use polyglot_ticketing_v.Creation.TicketCreation.History.{
  System, idle, Event, begin_creation, go_on_creation, begin_updates, accept_update, lock_update,
  go_on_update, renew_updates, claim, release, reserve_order, expire_order, pay_order,
  resolve_order, cancel_order, step, run,
}
use polyglot_ticketing_v.Creation.TicketCreation.History.Ready.{
  Ready, RunReady, create_ticket_workflow-Ready, accept-RunReady, lock-RunReady,
  continue_as_new-RunReady, carry_on-Ready, advance-Ready,
}
use polyglot_ticketing_v.Creation.TicketCreation.History.Synced.{Synced}
use polyglot_ticketing_v.Creation.TicketCreation.History.InStep.{
  IsReady, creation_moved-IsReady, run_moved-IsReady, on_run-IsReady, orders-IsReady,
  tickets-IsReady, any_orders,
}

module _ (uuid_parse : Text → Option ℕ) (uuid_text : ℕ → Text)
    (uuid_law : (id : ℕ) → uuid_parse (uuid_text id) ≡ some id) (origin : ℕ → Draft) where
  step-IsReady :
      (e : Event) (sys : System)
      → IsReady uuid_parse uuid_text uuid_law origin sys
      → IsReady uuid_parse uuid_text uuid_law origin (step uuid_parse uuid_text origin e sys)
  unfolding step
  step-IsReady (begin_creation id) sys h = record {
    synced = h.synced;
    creations_ready =
        ++-All (λ f. Ready uuid_parse uuid_text uuid_law origin f sys.world.tickets) sys.creations _
          (create_ticket_workflow-Ready uuid_parse uuid_text uuid_law origin id _)
          h.creations_ready;
    updates_ready = h.updates_ready;
  }
  step-IsReady (go_on_creation i faults) sys h = elim (Option-cases (get_elem? sys.creations i)) [
    | inl nobody ↦ rw nobody h
    | inr (f, found) ↦
        let (kept, ready) =
          advance-Ready uuid_parse uuid_text uuid_law origin 0 faults f sys.world
            (get_elem?-All (λ f. Ready uuid_parse uuid_text uuid_law origin f sys.world.tickets)
              sys.creations i f found h.creations_ready)
            h.synced in
        rw found
          (creation_moved-IsReady uuid_parse uuid_text uuid_law origin i sys _ _ kept ready h)
  ]
  step-IsReady begin_updates sys h = record {
    synced = h.synced;
    creations_ready = h.creations_ready;
    updates_ready =
        ++-All (λ r. RunReady uuid_parse uuid_text uuid_law origin r sys.world.tickets) sys.updates
          new_run tt h.updates_ready;
  }
  step-IsReady (accept_update i input) sys h =
      on_run-IsReady uuid_parse uuid_text uuid_law origin i (accept input) sys
        (accept-RunReady uuid_parse uuid_text uuid_law origin input) h
  step-IsReady (lock_update i j) sys h =
      on_run-IsReady uuid_parse uuid_text uuid_law origin i (lock j) sys
        (lock-RunReady uuid_parse uuid_text uuid_law origin j) h
  step-IsReady (go_on_update i faults) sys h = elim (Option-cases (get_elem? sys.updates i)) [
    | inl nobody ↦ rw nobody h
    | inr (r, found) ↦
        let (kept, ready) =
          carry_on-Ready uuid_parse uuid_text uuid_law origin faults r sys.world
            (get_elem?-All (λ r. RunReady uuid_parse uuid_text uuid_law origin r sys.world.tickets)
              sys.updates i r found h.updates_ready)
            h.synced in
        rw found (run_moved-IsReady uuid_parse uuid_text uuid_law origin i sys _ _ kept ready h)
  ]
  step-IsReady (renew_updates i) sys h =
      on_run-IsReady uuid_parse uuid_text uuid_law origin i continue_as_new sys
        (continue_as_new-RunReady uuid_parse uuid_text uuid_law origin) h
  step-IsReady (claim ticket order faults) sys h =
      tickets-IsReady uuid_parse uuid_text uuid_law origin _ faults sys
        (reserve_for_order-Keeps _ (From-KeptByClaims origin _) ticket order) h
  step-IsReady (release ticket order faults) sys h =
      tickets-IsReady uuid_parse uuid_text uuid_law origin _ faults sys
        (release_order_reservation-Keeps _ (From-KeptByClaims origin _) ticket order) h
  step-IsReady (reserve_order random_id input faults) sys h =
      orders-IsReady uuid_parse uuid_text uuid_law origin _ faults sys
        (reserve_ticket-Keeps _ (any_orders uuid_parse uuid_text uuid_law origin _) random_id input)
        h
  step-IsReady (expire_order now id faults) sys h =
      orders-IsReady uuid_parse uuid_text uuid_law origin _ faults sys
        (expire_created_order-Keeps _ (any_orders uuid_parse uuid_text uuid_law origin _) now id) h
  step-IsReady (pay_order id user faults) sys h =
      orders-IsReady uuid_parse uuid_text uuid_law origin _ faults sys
        (start_payment-Keeps _ (any_orders uuid_parse uuid_text uuid_law origin _) id user) h
  step-IsReady (resolve_order id outcome faults) sys h =
      orders-IsReady uuid_parse uuid_text uuid_law origin _ faults sys
        (resolve_payment-Keeps _ (any_orders uuid_parse uuid_text uuid_law origin _) id outcome) h
  step-IsReady (cancel_order id user faults) sys h =
      orders-IsReady uuid_parse uuid_text uuid_law origin _ faults sys
        (cancel_by_id_and_user-Keeps _ (any_orders uuid_parse uuid_text uuid_law origin _) id user)
        h

  run-IsReady :
      (es : List Event) (sys : System)
      → IsReady uuid_parse uuid_text uuid_law origin sys
      → IsReady uuid_parse uuid_text uuid_law origin (run uuid_parse uuid_text origin es sys)
  unfolding run
  run-IsReady [] sys h = h
  run-IsReady (e ∷ es) sys h = run-IsReady es _ (step-IsReady e sys h)

abbrev pub nothing_yet : PaymentsDb → World
nothing_yet payments = record {
  orders = record { tickets = []; orders = [] };
  tickets = record { tickets = []; operations = [] };
  payments = payments;
}

module _ (uuid_parse : Text → Option ℕ) (uuid_text : ℕ → Text)
    (uuid_law : (id : ℕ) → uuid_parse (uuid_text id) ≡ some id) (origin : ℕ → Draft)
    (payments : PaymentsDb) where
  idle-IsReady : IsReady uuid_parse uuid_text uuid_law origin (idle (nothing_yet payments))
  unfolding lookup
  idle-IsReady = record {
    synced = record {
      recorded = record { original = λ id row e. absurd (none-ne-some row e); snapshots = tt };
      copied = record { copies = λ id copy e. absurd (none-ne-some copy e) };
    };
    creations_ready = tt;
    updates_ready = tt;
  }

  pub run-Synced :
      (es : List Event)
      → Synced origin (run uuid_parse uuid_text origin es (idle (nothing_yet payments))).world
  run-Synced es =
      (run-IsReady uuid_parse uuid_text uuid_law origin es (idle (nothing_yet payments))
        idle-IsReady).synced

  -- If UUIDs go through their texts unchanged, and each creation has a UUID of its own for its ticket:
  -- from databases without rows, whatever workflows of creations and of updates do and whatever goes
  -- wrong in each attempt, in any order among claims, releases and the calls of Orders, and also where
  -- a workflow of updates starts afresh with handlers at work, every copy of a ticket that Orders has is
  -- of a ticket that Tickets has, at no later version than the row there, and where both are at one
  -- version they have one title and one price.
  pub run_copied :
      (es : List Event) (id : ℕ) (copy : Orders.TicketRow)
      → let w = (run uuid_parse uuid_text origin es (idle (nothing_yet payments))).world in
        lookup id w.orders.tickets ≡ some copy
        → (version : ℕ) × (copy.aggregate_version ≡ pos version)
          × Recorded id version copy.title copy.price w.tickets
  run_copied es = (run-Synced es).copied.copies
