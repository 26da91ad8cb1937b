-- ===== src/Creation/TicketCreation/Projected.antt =====
-- A workflow of a creation or an update ends well only with the ticket projected to Orders.
use mathlib.Core.Path.{subst}
use polyglot_ticketing_v.Base.{ℕ, ◌≡◌, List, [], ◌∷◌, Option, some, Text, Result, ok, err}
use polyglot_ticketing_v.Base.Int.{pos}
use polyglot_ticketing_v.Base.Table.{lookup}
use polyglot_ticketing_v.Base.Db.{Fault, Session}
use polyglot_ticketing_v.Base.Grpc.{Status}
use polyglot_ticketing_v.Base.Temporal.{Failure, non_retryable, other_failure}
use polyglot_ticketing_v.World.{World}
use polyglot_ticketing_v.Orders.Model.{OrdersDb}
use polyglot_ticketing_v.Orders.Model as Orders
use polyglot_ticketing_v.Orders.Server.Projected.{Sent, handle_ensure_ticket_projection-Sent}
use polyglot_ticketing_v.Tickets.Model.{Ticket}
use polyglot_ticketing_v.Reservation.Later.{Holding, map_err-Holding}
use polyglot_ticketing_v.Reservation.Activities.Steps.{rpc-Holding}
use polyglot_ticketing_v.Creation.TicketCreation.{
  Input, UpdateTicketInput, persist_ticket, persist_ticket_update, projection_request,
  project_ticket_to_orders, TicketFlow, finish, persist, persist_update, project,
  create_ticket_workflow, update_ticket_handler, follow, advance, Attempt, drive,
}

-- Orders has the ticket as it is.
abbrev pub IsProjected : Ticket → World → Type 0
IsProjected t w =
    lookup t.id w.orders.tickets
    ≡ some
        (record { title = t.title; price = t.price; aggregate_version = pos t.aggregate_version })

-- The ticket as `EnsureTicketProjection` is given it.
abbrev pub as_input : Ticket → Orders.Ticket
as_input t = record {
  id = t.id;
  title = t.title;
  price = t.price;
  aggregate_version = pos t.aggregate_version;
}

-- Whenever the workflow ends well, Orders has the ticket that it returns.
Sound : TicketFlow → World → Type 0
Sound (finish (ok t)) w = IsProjected t w
Sound (finish (err _)) w = Unit
Sound (persist input next) w = (t : Ticket) (u : World) → Sound (next t) u
Sound (persist_update input next) w = (t : Ticket) (u : World) → Sound (next t) u
Sound (project t next) w = (u : World) → IsProjected t u → Sound next u

Sent-Holding :
    (t : Ticket) (r : Result Status (Unit {0})) (w : World) (db : OrdersDb) (faults : List Fault)
    → Sent (as_input t) r db
    → Holding
        (λ _. IsProjected t)
        (r, record { tables = record w { orders = db }; faults = faults })
Sent-Holding t (ok _) w db faults h = h
Sent-Holding t (err _) w db faults h = tt

-- What follows an attempt of which the world keeps what the first part needs.
follow-Sound :
    {A : Type 0} (Q : A → World → Type 0) (again : TicketFlow) (next : A → TicketFlow)
    (r : Result Failure A) (s : Session World)
    → Holding Q (r, s)
    → Sound again s.tables
    → ((a : A) → Q a s.tables → Sound (next a) s.tables)
    → Sound (follow again next r) s.tables
unfolding Sound
follow-Sound Q again next (ok a) s h k on = on a h
follow-Sound Q again next (err (non_retryable t)) s h k on = tt
follow-Sound Q again next (err other_failure) s h k on = k

pub any-Holding :
    {E A : Type 0} (r : Result E A) (s : Session World) → Holding (λ (a : A) _. Unit {0}) (r, s)
any-Holding (ok a) s = tt
any-Holding (err e) s = tt

-- The two jobs, and the workflow of each.
pub data Job : Type 0 where
  creation : Input → Job
  edit : UpdateTicketInput → Job

abbrev pub flow_of : Job → TicketFlow
flow_of (creation input) = create_ticket_workflow input
flow_of (edit input) = update_ticket_handler input

module _ (uuid_parse : Text → Option ℕ) (uuid_text : ℕ → Text)
    (uuid_law : (id : ℕ) → uuid_parse (uuid_text id) ≡ some id) where
  project_ticket_to_orders-Holding :
      (t : Ticket) (s : Session World)
      → Holding (λ _. IsProjected t) (project_ticket_to_orders uuid_parse uuid_text t s)
  unfolding project_ticket_to_orders
  project_ticket_to_orders-Holding t s =
      map_err-Holding (λ _. IsProjected t) _ _ _
        (rpc-Holding (λ _. IsProjected t) _ s
          (Sent-Holding t _ s.tables _ _ (
            handle_ensure_ticket_projection-Sent uuid_parse
              (projection_request uuid_parse uuid_text t) t.id (uuid_law t.id) _)))

  advance-Sound :
      (random_id : ℕ) (faults : List Fault) (f : TicketFlow) (w : World)
      → Sound f w
      → let (g, u) = advance uuid_parse uuid_text random_id faults f w in Sound g u
  unfolding advance Sound
  advance-Sound random_id faults (finish r) w h = h
  advance-Sound random_id faults (persist input next) w h =
      let call = persist_ticket uuid_parse uuid_text random_id input in
      let s : Session World = record { tables = w; faults = faults } in
      follow-Sound (λ _ _. Unit {0}) (persist input next) next (call s).0 (call s).1
        (any-Holding (call s).0 (call s).1) h (λ t _. h t (call s).1.tables)
  advance-Sound random_id faults (persist_update input next) w h =
      let call = persist_ticket_update uuid_parse uuid_text input in
      let s : Session World = record { tables = w; faults = faults } in
      follow-Sound (λ _ _. Unit {0}) (persist_update input next) next (call s).0 (call s).1
        (any-Holding (call s).0 (call s).1) h (λ t _. h t (call s).1.tables)
  advance-Sound random_id faults (project t next) w h =
      follow-Sound (λ _. IsProjected t) (project t next) (λ _. next) _ _
        (project_ticket_to_orders-Holding t (record { tables = w; faults = faults })) h (λ _. h _)

  drive-Sound :
      (attempts : List Attempt) (f : TicketFlow) (w : World)
      → Sound f w
      → let (g, u) = drive uuid_parse uuid_text attempts f w in Sound g u
  unfolding drive Sound
  drive-Sound [] f w h = h
  drive-Sound (a ∷ rest) (finish r) w h = h
  drive-Sound ((random_id, faults, found) ∷ rest) (persist input next) w h =
      drive-Sound rest _ _ (advance-Sound random_id faults (persist input next) found h)
  drive-Sound ((random_id, faults, found) ∷ rest) (persist_update input next) w h =
      drive-Sound rest _ _ (advance-Sound random_id faults (persist_update input next) found h)
  drive-Sound ((random_id, faults, found) ∷ rest) (project t next) w h =
      drive-Sound rest _ _ (advance-Sound random_id faults (project t next) found h)

  drive_creation :
      (attempts : List Attempt) (input : Input) (w : World) (t : Ticket) (u : World)
      → drive uuid_parse uuid_text attempts (create_ticket_workflow input) w ≡ (finish (ok t), u)
      → IsProjected t u
  unfolding Sound create_ticket_workflow
  drive_creation attempts input w t u e =
      subst (λ (r : TicketFlow × World). Sound r.0 r.1) e
        (drive-Sound attempts (create_ticket_workflow input) w (λ t u v p. p))

  drive_update :
      (attempts : List Attempt) (input : UpdateTicketInput) (w : World) (t : Ticket) (u : World)
      → drive uuid_parse uuid_text attempts (update_ticket_handler input) w ≡ (finish (ok t), u)
      → IsProjected t u
  unfolding Sound update_ticket_handler
  drive_update attempts input w t u e =
      subst (λ (r : TicketFlow × World). Sound r.0 r.1) e
        (drive-Sound attempts (update_ticket_handler input) w (λ t u v p. p))

  -- If UUIDs go through their texts unchanged: whatever goes wrong in each attempt, and whatever is
  -- written to the databases between two of them, where the workflow of a creation or the handler of an
  -- update ends with a ticket, the last attempt leaves Orders with that ticket's title, price and
  -- version under its id.
  pub drive-IsProjected :
      (attempts : List Attempt) (f : Job) (w : World) (t : Ticket) (u : World)
      → drive uuid_parse uuid_text attempts (flow_of f) w ≡ (finish (ok t), u)
      → IsProjected t u
  drive-IsProjected attempts (creation input) w t u e = drive_creation attempts input w t u e
  drive-IsProjected attempts (edit input) w t u e = drive_update attempts input w t u e
