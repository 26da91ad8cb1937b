-- ===== src/Reservation/Coordinator/Refused.antt =====
-- A claim that Tickets refuses for good: what the caller of Orders is told, and why.
use mathlib.Core.Path.{subst}
use polyglot_ticketing_v.Base.{
  ℕ, ◌≡◌, ◌⊎◌, refl, sym, ◌∙◌, inl, inr, Option, none, some, Text, Result, ok, err,
}
use polyglot_ticketing_v.Base.Table.{lookup}
use polyglot_ticketing_v.Base.Db.{
  Fault, healthy, rejected, lost, Session, Db, next_fault, later_faults,
}
use polyglot_ticketing_v.Base.Grpc.{Status, respond}
use polyglot_ticketing_v.Base.Validation.{answered}
use polyglot_ticketing_v.Base.Temporal.{Failure, non_retryable, other_failure}
use polyglot_ticketing_v.World.{World, deliver, on_tickets}
use polyglot_ticketing_v.Orders.Model.{Error, not_found, reserved, Order}
use polyglot_ticketing_v.Tickets.Model as Sold
use polyglot_ticketing_v.Tickets.Model.{TicketRow, TicketsDb}
use polyglot_ticketing_v.Tickets.Repository.{free_or_own}
use polyglot_ticketing_v.Tickets.Repository.Claims.{Fails, Reserved, reserve_for_order-Reserved}
use polyglot_ticketing_v.Tickets.Server.{reserve_status, handle_reserve}
use polyglot_ticketing_v.Reservation.Activities.{claim_ticket, code_failure, reservation_rpc_error}
use polyglot_ticketing_v.Reservation.Activities.Steps.{reserved_session}
use polyglot_ticketing_v.Reservation.Coordinator.{type_error, reservation_workflow_error}

-- The claims on the order's ticket.
abbrev row_of : Order → World → Option TicketRow
row_of o w = lookup o.ticket_id w.tickets.tickets

-- The caller is told that the ticket is not found, and there is none; or that it is reserved, and another
-- order has it.
abbrev pub Explained : Order → World → Error → Type 0
Explained o w e =
    ((e ≡ not_found) × (row_of o w ≡ none))
    ⊎ ((e ≡ reserved) × Fails (free_or_own o.id) (row_of o w))

-- A failure for good has left the ticket's row as it was, and is explained by it.
abbrev pub Refused : Order → World → Result Failure (Unit {0}) → World → Type 0
Refused o w (ok _) u = Unit
Refused o w (err other_failure) u = Unit
Refused o w (err (non_retryable t)) u =
    (row_of o u ≡ row_of o w) × Explained o w (reservation_workflow_error (non_retryable t))

-- What the activity makes of an answer of the server.
abbrev failed_as : Result Status (Unit {0}) → Result Failure (Unit {0})
failed_as r = elim r [ ok a ↦ ok a | err e ↦ err (reservation_rpc_error e) ]

Reserved-Refused :
    (o : Order) (w u : World) (r : Result Sold.Error (Unit {0}))
    → Reserved (free_or_own o.id) (some o.id) (row_of o w) r (row_of o u)
    → Refused o w (failed_as (respond reserve_status (λ u. u) (answered r))) u
unfolding reserve_status reservation_rpc_error code_failure reservation_workflow_error type_error
Reserved-Refused o w u (ok _) h = tt
Reserved-Refused o w u (err Sold.reserved) h = (h.0, inr (refl, h.1))
Reserved-Refused o w u (err Sold.not_found) h = (h.1 ∙ sym h.0, inl (refl, h.0))
Reserved-Refused o w u (err (Sold.database _)) h = tt
Reserved-Refused o w u (err _) h = absurd h

module _ (o : Order) (w : World) (handler : Db World Status (Unit {0})) where
  deliver-Refused :
      (fault : Fault) (s : Session World)
      → Refused o w (failed_as (handler s).0) (handler s).1.tables
      → let (r, u) = deliver fault handler s in Refused o w (failed_as r) u.tables
  unfolding reservation_rpc_error code_failure
  deliver-Refused healthy s h = h
  deliver-Refused (rejected _) s h = tt
  deliver-Refused (lost _) s h = tt

-- If UUIDs go through their texts unchanged, whatever goes wrong: where the claim of a creation's
-- workflow fails for good, the ticket's row at Tickets is as it was before that attempt, and what the
-- failed workflow comes to for the caller of Orders is that the ticket is not found, where Tickets has
-- none, or that it is reserved, where another order has claimed it, and nothing else.
pub claim_ticket-Refused :
    (uuid_parse : Text → Option ℕ) (uuid_text : ℕ → Text)
    → ((id : ℕ) → uuid_parse (uuid_text id) ≡ some id)
    → (o : Order) (s : Session World)
    → let (r, u) = claim_ticket uuid_parse uuid_text o s in Refused o s.tables r u.tables
unfolding claim_ticket
claim_ticket-Refused uuid_parse uuid_text uuid_law o s =
    let later : Session World = record s { faults = later_faults s.faults } in
    let t : Session TicketsDb = record {
      tables = s.tables.tickets;
      faults = later_faults s.faults;
    } in
    let handler = on_tickets (handle_reserve uuid_parse (uuid_text o.ticket_id) (uuid_text o.id)) in
    deliver-Refused o s.tables handler (next_fault s.faults) later (
      subst (λ x. Refused o s.tables (failed_as x.0) (record s.tables { tickets = x.1.tables }))
        (sym (reserved_session uuid_parse uuid_text uuid_law o t))
        (Reserved-Refused o s.tables _ _ (reserve_for_order-Reserved o.ticket_id o.id t)))
