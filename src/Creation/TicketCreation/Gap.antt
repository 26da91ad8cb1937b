-- ===== src/Creation/TicketCreation/Gap.antt =====
-- A version that was persisted but never projected leaves a gap: no later version is projected.
use mathlib.Core.Path.{subst}
use polyglot_ticketing_v.Base.{
  ℕ, ◌≡◌, refl, sym, ap, true, List, [], ◌∷◌, Option, some, Text, Result, ok, err, arith,
}
use polyglot_ticketing_v.Base.Table.{lookup}
use polyglot_ticketing_v.Base.Db.{
  Fault, healthy, rejected, lost, Session, Db, next_fault, later_faults,
}
use polyglot_ticketing_v.Base.Grpc.{Status, unavailable, respond}
use polyglot_ticketing_v.Base.Validation.{answered}
use polyglot_ticketing_v.Base.Temporal.{Failure, other_failure}
use polyglot_ticketing_v.World.{World, deliver, on_orders, map_err}
use polyglot_ticketing_v.Orders.Model.{
  Error, database, projection_out_of_order, TicketRow, OrdersDb,
}
use polyglot_ticketing_v.Orders.Projection.{validate_projection, ensure_ticket_projection}
use polyglot_ticketing_v.Orders.Projection.Ahead.{IsAhead, Refused, ensure_ticket_projection-ahead}
use polyglot_ticketing_v.Orders.Wire.{ProjectionRequest}
use polyglot_ticketing_v.Orders.Server.{
  value, projection_status, project as project_for, handle_ensure_ticket_projection,
}
use polyglot_ticketing_v.Orders.Server.Projected.{requested}
use polyglot_ticketing_v.Tickets.Model.{Ticket}
use polyglot_ticketing_v.Creation.TicketCreation.{
  projection_failure, projection_request, project_ticket_to_orders, TicketFlow, project, advance,
  Attempt, drive,
}
use polyglot_ticketing_v.Creation.TicketCreation.Projected.{as_input}

-- A call that failed with Unavailable, and changed nothing.
abbrev IsUnavailable : {T A : Type 0} → T → Result Status A × Session T → Type 0
IsUnavailable before (ok _, s) = ⊥
IsUnavailable before (err status, s) = (status.code ≡ unavailable) × (s.tables ≡ before)

Refused-IsUnavailable :
    (before t : OrdersDb) (r : Result Error (Unit {0})) (faults : List Fault)
    → Refused before r t
    → IsUnavailable before
        (respond projection_status (λ u. u) (answered r), record { tables = t; faults = faults })
unfolding projection_status
Refused-IsUnavailable before t (ok _) faults h = absurd h
Refused-IsUnavailable before t (err projection_out_of_order) faults h = (refl, h)
Refused-IsUnavailable before t (err (database _)) faults h = (refl, h)
Refused-IsUnavailable before t (err _) faults h = absurd h

-- What Tickets makes of an answer, or of one that does not come.
abbrev Retried : World → Result Failure (Unit {0}) × Session World → Type 0
Retried w (r, s) = (r ≡ err other_failure) × (s.tables ≡ w)

status-Retried :
    (w : World) (r : Result Status (Unit {0})) (s : Session World)
    → IsUnavailable w (r, s)
    → Retried w (map_err (λ (status : Status). projection_failure status.code) (λ _. (r, s)) s)
unfolding projection_failure
status-Retried w (ok _) s h = absurd h
status-Retried w (err status) s (code, same) = (rw code refl, same)

deliver-IsUnavailable :
    (fault : Fault) (handler : Db World Status (Unit {0})) (s : Session World)
    → IsUnavailable s.tables (handler s)
    → (handler s).1.tables ≡ s.tables
    → IsUnavailable s.tables (deliver fault handler s)
deliver-IsUnavailable healthy handler s h same = h
deliver-IsUnavailable (rejected _) handler s h same = (refl, refl)
deliver-IsUnavailable (lost _) handler s h same = (refl, same)

-- The ticket is more than one version ahead of the copy that Orders has of it.
abbrev pub IsGap : Ticket → World → Type 0
IsGap t w =
    (copy : TicketRow) × (lookup t.id w.orders.tickets ≡ some copy) × IsAhead (as_input t) copy

-- Every attempt finds databases with the gap.
abbrev pub EachGap : Ticket → List Attempt → Type 0
EachGap t [] = Unit
EachGap t ((random_id, faults, found) ∷ rest) = IsGap t found × EachGap t rest

-- The databases that the last attempt finds.
abbrev pub last_found : List Attempt → World → World
last_found [] w = w
last_found ((random_id, faults, found) ∷ rest) w = last_found rest found

in_World :
    (w : World) (r : Result Status (Unit {0})) (s : Session OrdersDb)
    → IsUnavailable w.orders (r, s)
    → IsUnavailable w (r, record { tables = record w { orders = s.tables }; faults = s.faults })
in_World w (ok _) s h = absurd h
in_World w (err status) s (code, same) = (code, ap (λ (o : OrdersDb). record w { orders = o }) same)

same_tables :
    (w : World) (r : Result Status (Unit {0}) × Session World) → IsUnavailable w r → r.1.tables ≡ w
same_tables w (ok _, s) h = absurd h
same_tables w (err _, s) h = h.1

module _ (uuid_parse : Text → Option ℕ) (uuid_text : ℕ → Text)
    (uuid_law : (id : ℕ) → uuid_parse (uuid_text id) ≡ some id) where
  handler-IsUnavailable :
      (request : ProjectionRequest) (copy : TicketRow) (s : Session OrdersDb)
      → let input = requested request (value uuid_parse request.id) in
        validate_projection uuid_parse request.id input ≡ true
        → lookup input.id s.tables.tickets ≡ some copy
        → IsAhead input copy
        → IsUnavailable s.tables
            (handle_ensure_ticket_projection uuid_parse (some ensure_ticket_projection) request s)
  unfolding handle_ensure_ticket_projection project_for
  handler-IsUnavailable request copy s valid there ahead = rw valid (
      Refused-IsUnavailable s.tables _ _ _ (
        (ensure_ticket_projection-ahead (requested request (value uuid_parse request.id)) copy
            s.tables there ahead).holds
          s refl))

  module _ (t : Ticket) (copy : TicketRow) (w : World)
      (there : lookup t.id w.orders.tickets ≡ some copy) (ahead : IsAhead (as_input t) copy)
      (valid : validate_projection uuid_parse (uuid_text t.id) (as_input t) ≡ true) where
    project_ticket_to_orders-Retried :
        (faults : List Fault)
        → Retried w (
            project_ticket_to_orders uuid_parse uuid_text t
              (record { tables = w; faults = faults }))
    unfolding project_ticket_to_orders
    project_ticket_to_orders-Retried faults =
        let request : ProjectionRequest = projection_request uuid_parse uuid_text t in
        let s : Session World = record { tables = w; faults = later_faults faults } in
        let v : t.id ≡ value uuid_parse request.id = ground (arith, uuid_law t.id) in
        let answer : IsUnavailable w (
            on_orders
              (handle_ensure_ticket_projection uuid_parse (some ensure_ticket_projection) request)
              s) =
          in_World w _ _ (
            handler-IsUnavailable request copy
              (record { tables = w.orders; faults = later_faults faults })
              (subst (λ i. validate_projection uuid_parse request.id (requested request i) ≡ true) v
                valid)
              (subst (λ i. lookup i w.orders.tickets ≡ some copy) v there)
              (subst (λ i. IsAhead (requested request i) copy) v ahead)) in
        status-Retried w _ _
          (deliver-IsUnavailable (next_fault faults) _ s answer (same_tables w _ answer))

    advance-gap :
        (random_id : ℕ) (faults : List Fault) (next : TicketFlow)
        → advance uuid_parse uuid_text random_id faults (project t next) w ≡ (project t next, w)
    unfolding advance
    advance-gap random_id faults next =
        let (failed, same) = project_ticket_to_orders-Retried faults in rw (failed, same) refl

  -- If UUIDs go through their texts unchanged, and the ticket is one that passes Orders' validation: a
  -- workflow that is to project it is where it was after any number of attempts, whatever goes wrong or
  -- does not in each and whatever is written to the databases between them, as long as every attempt
  -- finds the ticket more than one version ahead of Orders' copy; and no attempt changes the databases.
  pub drive_gap :
      (t : Ticket)
      → validate_projection uuid_parse (uuid_text t.id) (as_input t) ≡ true
      → (next : TicketFlow) (attempts : List Attempt) (w : World) → EachGap t attempts
      → drive uuid_parse uuid_text attempts (project t next) w
        ≡ (project t next, last_found attempts w)
  unfolding drive
  drive_gap t valid next [] w gaps = refl
  drive_gap t valid next ((random_id, faults, found) ∷ rest) w ((copy, there, ahead), gaps) =
      subst
        (λ (r : TicketFlow × World).
          drive uuid_parse uuid_text rest r.0 r.1 ≡ (project t next, last_found rest found))
        (sym (advance-gap t copy found there ahead valid random_id faults next))
        (drive_gap t valid next rest found gaps)
