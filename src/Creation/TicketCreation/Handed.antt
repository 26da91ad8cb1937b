-- ===== src/Creation/TicketCreation/Handed.antt =====
-- One attempt at the projection of a ticket: of the version after the copy's, and of one that the copy
-- is at or past.
use mathlib.Core.Path.{subst}
use polyglot_ticketing_v.Base.{
  ℕ, ◌≡◌, ◌≤◌, ◌⊎◌, refl, sym, true, Option, some, Text, Result, ok, err, inl, inr, Bool-cases,
  arith,
}
use polyglot_ticketing_v.Base.Int.{pos, suc_ℤ}
use polyglot_ticketing_v.Base.Table.{lookup}
use polyglot_ticketing_v.Base.Db.{
  Fault, healthy, rejected, lost, Session, Db, next_fault, later_faults,
}
use polyglot_ticketing_v.Base.Grpc.{Status, unavailable, respond}
use polyglot_ticketing_v.Base.Validation.{answered}
use polyglot_ticketing_v.Base.Temporal.{Failure, non_retryable, other_failure}
use polyglot_ticketing_v.World.{World, deliver, on_orders, map_err}
use polyglot_ticketing_v.Orders.Model.{Error, database, TicketRow, OrdersDb}
use polyglot_ticketing_v.Orders.Model as Orders
use polyglot_ticketing_v.Orders.Projection.{
  ticket_row, validate_projection, ensure_ticket_projection,
}
use polyglot_ticketing_v.Orders.Projection.Next.{
  Advanced, ensure_ticket_projection-Advanced, ensure_ticket_projection-past,
}
use polyglot_ticketing_v.Orders.Server.{
  value, projection_status, project as project_for, handle_ensure_ticket_projection,
}
use polyglot_ticketing_v.Orders.Server.Projected.{requested}
use polyglot_ticketing_v.Orders.Wire.{ProjectionRequest}
use polyglot_ticketing_v.Tickets.Model.{Ticket}
use polyglot_ticketing_v.Creation.TicketCreation.{
  projection_failure, projection_request, project_ticket_to_orders,
}
use polyglot_ticketing_v.Creation.TicketCreation.Projected.{as_input}

-- The copy of a ticket is the old row or the new one.
abbrev pub IsEither : ℕ → TicketRow → TicketRow → OrdersDb → Type 0
IsEither id old new db = (lookup id db.tickets ≡ some old) ⊎ (lookup id db.tickets ≡ some new)

-- What an answer of the handler says of the copy.
abbrev Handled : ℕ → TicketRow → TicketRow → Result Status (Unit {0}) → OrdersDb → Type 0
Handled id old new (ok _) db = lookup id db.tickets ≡ some new
Handled id old new (err status) db = (status.code ≡ unavailable) × IsEither id old new db

-- What the end of an attempt says of it.
abbrev pub Handed : ℕ → TicketRow → TicketRow → Result Failure (Unit {0}) → OrdersDb → Type 0
Handed id old new (ok _) db = lookup id db.tickets ≡ some new
Handed id old new (err other_failure) db = IsEither id old new db
Handed id old new (err (non_retryable _)) db = ⊥

Advanced-Handled :
    (input : Orders.Ticket) (old : TicketRow)
    (next : suc_ℤ old.aggregate_version ≡ input.aggregate_version) (r : Result Error (Unit {0}))
    (db : OrdersDb)
    → Advanced input old next r db
    → Handled input.id old (ticket_row input) (respond projection_status (λ u. u) (answered r)) db
unfolding projection_status
Advanced-Handled input old next (ok _) db h = h
Advanced-Handled input old next (err (database _)) db h = (refl, h)
Advanced-Handled input old next (err _) db h = absurd h

Handled-IsEither :
    (id : ℕ) (old new : TicketRow) (r : Result Status (Unit {0})) (db : OrdersDb)
    → Handled id old new r db
    → IsEither id old new db
Handled-IsEither id old new (ok _) db h = inr h
Handled-IsEither id old new (err _) db h = h.1

deliver-Handled :
    (id : ℕ) (old new : TicketRow) (fault : Fault) (handler : Db World Status (Unit {0}))
    (s : Session World)
    → lookup id s.tables.orders.tickets ≡ some old
    → Handled id old new (handler s).0 (handler s).1.tables.orders
    → let (r, s') = deliver fault handler s in Handled id old new r s'.tables.orders
deliver-Handled id old new healthy handler s there h = h
deliver-Handled id old new (rejected _) handler s there h = (refl, inl there)
deliver-Handled id old new (lost _) handler s there h =
    (refl, Handled-IsEither id old new (handler s).0 _ h)

failure-Handed :
    (id : ℕ) (old new : TicketRow) (r : Result Status (Unit {0})) (s : Session World)
    → Handled id old new r s.tables.orders
    → let (r', s') =
        map_err (λ (status : Status). projection_failure status.code) (λ _. (r, s)) s in
      Handed id old new r' s'.tables.orders
unfolding projection_failure
failure-Handed id old new (ok _) s h = h
failure-Handed id old new (err status) s (code, h) = rw code h

deliver-kept :
    (fault : Fault) (handler : Db World Status (Unit {0})) (s : Session World) (Q : World → Type 0)
    → Q s.tables
    → Q (handler s).1.tables
    → Q (deliver fault handler s).1.tables
deliver-kept healthy handler s Q before after = after
deliver-kept (rejected _) handler s Q before after = before
deliver-kept (lost _) handler s Q before after = after

module _ (uuid_parse : Text → Option ℕ) (uuid_text : ℕ → Text)
    (uuid_law : (id : ℕ) → uuid_parse (uuid_text id) ≡ some id) where
  value-Handled :
      (request : ProjectionRequest) (old : TicketRow) (s : Session OrdersDb)
      → let input = requested request (value uuid_parse request.id) in
        validate_projection uuid_parse request.id input ≡ true
        → (next : suc_ℤ old.aggregate_version ≡ input.aggregate_version)
        → lookup input.id s.tables.tickets ≡ some old
        → let (r, s') =
            handle_ensure_ticket_projection uuid_parse (some ensure_ticket_projection) request s in
          Handled input.id old (ticket_row input) r s'.tables
  unfolding handle_ensure_ticket_projection project_for
  value-Handled request old s valid next there =
      let input : Orders.Ticket = requested request (value uuid_parse request.id) in
      rw valid (
        Advanced-Handled input old next _ _
          ((ensure_ticket_projection-Advanced input old next).holds s there))

  value-past :
      (request : ProjectionRequest) (old : TicketRow) (n m : ℕ) (s : Session OrdersDb)
      → let input = requested request (value uuid_parse request.id) in
        old.aggregate_version ≡ pos n
        → input.aggregate_version ≡ pos m
        → m ≤ n
        → lookup input.id s.tables.tickets ≡ some old
        → let (r, s') =
            handle_ensure_ticket_projection uuid_parse (some ensure_ticket_projection) request s in
          lookup input.id s'.tables.tickets ≡ some old
  unfolding handle_ensure_ticket_projection project_for
  value-past request old n m s at version past there =
      let input : Orders.Ticket = requested request (value uuid_parse request.id) in
      elim (Bool-cases (validate_projection uuid_parse request.id input)) [
        | inl valid ↦ rw valid (ensure_ticket_projection-past input old n m at version past s there)
        | inr bad ↦ rw bad there
      ]

  module _ (t : Ticket) (old : TicketRow) (s : Session World)
      (there : lookup t.id s.tables.orders.tickets ≡ some old) where
    abbrev request : ProjectionRequest
    request = projection_request uuid_parse uuid_text t

    same_id : t.id ≡ value uuid_parse request.id
    same_id = ground (arith, uuid_law t.id)

    abbrev inner : Session OrdersDb
    inner = record { tables = s.tables.orders; faults = later_faults s.faults }

    -- The next version of a ticket that passes Orders' validation is projected, or tried again.
    pub project_ticket_to_orders-Handed :
        validate_projection uuid_parse (uuid_text t.id) (as_input t) ≡ true
        → suc_ℤ old.aggregate_version ≡ pos t.aggregate_version
        → let (r, s') = project_ticket_to_orders uuid_parse uuid_text t s in
          Handed t.id old (ticket_row (as_input t)) r s'.tables.orders
    unfolding project_ticket_to_orders
    project_ticket_to_orders-Handed valid next =
        let s' : Session World = record s { faults = later_faults s.faults } in
        let handler : Db World Status (Unit {0}) =
          on_orders
            (handle_ensure_ticket_projection uuid_parse (some ensure_ticket_projection) request) in
        let answer = deliver (next_fault s.faults) handler s' in
        failure-Handed t.id old (ticket_row (as_input t)) answer.0 answer.1 (
          deliver-Handled t.id old (ticket_row (as_input t)) (next_fault s.faults) handler s' there
            (subst
              (λ i.
                validate_projection uuid_parse request.id (requested request i) ≡ true
                → lookup i s.tables.orders.tickets ≡ some old
                → let (r, d) =
                    handle_ensure_ticket_projection uuid_parse (some ensure_ticket_projection)
                      request inner in
                  Handled i old (ticket_row (as_input t)) r d.tables)
              (sym same_id) (λ v a. value-Handled request old inner v next a) valid there))

    -- A version that the copy is at or past leaves the copy as it is.
    pub project_ticket_to_orders-past :
        (n : ℕ)
        → old.aggregate_version ≡ pos n
        → t.aggregate_version ≤ n
        → lookup t.id (project_ticket_to_orders uuid_parse uuid_text t s).1.tables.orders.tickets
          ≡ some old
    unfolding project_ticket_to_orders
    project_ticket_to_orders-past n at past =
        let s' : Session World = record s { faults = later_faults s.faults } in
        deliver-kept (next_fault s.faults) _ s' (λ w. lookup t.id w.orders.tickets ≡ some old) there
          (subst
            (λ i.
              lookup i s.tables.orders.tickets ≡ some old
              → let (r, d) =
                  handle_ensure_ticket_projection uuid_parse (some ensure_ticket_projection) request
                    inner in
                lookup i d.tables.tickets ≡ some old)
            (sym same_id) (λ a. value-past request old n t.aggregate_version inner at refl past a)
            there)

    -- Tickets' tables are not touched.
    pub project_ticket_to_orders-tickets :
        (project_ticket_to_orders uuid_parse uuid_text t s).1.tables.tickets ≡ s.tables.tickets
    unfolding project_ticket_to_orders
    project_ticket_to_orders-tickets =
        deliver-kept (next_fault s.faults) _ (record s { faults = later_faults s.faults })
          (λ w. w.tickets ≡ s.tables.tickets) refl refl
