-- ===== src/Reservation/History/Claimed.antt =====
-- What every history respects: the claims of tickets and the answers of the workflows.
use polyglot_ticketing_v.Base.{
  ℕ, ◌≡◌, ◌⊎◌, inl, inr, List, [], ◌∷◌, Option, none, some, Option-cases, Text, ok, sym, ap, ◌∙◌,
}
use mathlib.Core.Option.{some-injective}
use polyglot_ticketing_v.Base.Table.{lookup}
use polyglot_ticketing_v.Base.Lists.{get_elem?, set, All, get_elem?-All, set-All, ++-All, All-map}
use polyglot_ticketing_v.Base.Db.{Fault, Db}
use polyglot_ticketing_v.World.{World, on_orders, on_tickets}
use polyglot_ticketing_v.Orders.Model.{Order, ReservationResult}
use polyglot_ticketing_v.Orders.Repository.{start_payment}
use polyglot_ticketing_v.Orders.Projection.{ensure_ticket_projection}
use polyglot_ticketing_v.Orders.Repository.Transitions.{start_payment-Evolves}
use polyglot_ticketing_v.Orders.Projection.Kept.{ensure_ticket_projection-Evolves}
use polyglot_ticketing_v.Tickets.Model.{TicketRow}
use polyglot_ticketing_v.Tickets.Repository.{create, update_with_idempotency}
use polyglot_ticketing_v.Tickets.Repository.Frozen.{create-At, update_with_idempotency-At}
use polyglot_ticketing_v.Reservation.Later.{
  IsCanceled, Later, Later-refl, Later-trans, Moves, on_orders-Moves, on_tickets-Moves,
}
use polyglot_ticketing_v.Reservation.Promise.{Has, Safe, Safe-Later}
use polyglot_ticketing_v.Reservation.Workflow.{Flow, finish, reservation_made}
use polyglot_ticketing_v.Reservation.Workflow.Starts.{
  create_order_workflow-Safe, cancel_order_workflow-Safe, resolve_payment_workflow-Safe,
}
use polyglot_ticketing_v.Reservation.System.{Moved}
use polyglot_ticketing_v.Reservation.System.Progress.{ChildSafe, Advanced, advance-Advanced}
use polyglot_ticketing_v.Reservation.History.{
  System, idle, Event, begin_create, begin_cancel, begin_resolve, progress, pay, project,
  create_ticket, edit_ticket, begin, behind, with_child, settle, step, run,
}

-- Every workflow that has been started is safe.
abbrev AllSafe : List Flow → World → Type 0
AllSafe fs w = All (λ f. Safe f w) fs

AllSafe-Later : (fs : List Flow) (a b : World) → Later a b → AllSafe fs a → AllSafe fs b
AllSafe-Later fs a b on h =
    All-map (λ f. Safe f a) (λ f. Safe f b) (λ f safe. Safe-Later f a b on safe) fs h

with_child-AllSafe :
    (child : Option Flow) (fs : List Flow) (w : World)
    → ChildSafe child w
    → AllSafe fs w
    → AllSafe (with_child child fs) w
with_child-AllSafe none fs w s h = h
with_child-AllSafe (some f) fs w s h = ++-All (λ f. Safe f w) fs f s h

-- A history from one system to another.
record Reaches (a b : System) : Type 0 where
  later : Later a.world b.world
  safe : AllSafe b.running b.world

begin-Reaches :
    (f : Flow) (sys : System)
    → Safe f sys.world
    → AllSafe sys.running sys.world
    → Reaches sys (begin f sys)
begin-Reaches f sys s h = record {
  later = Later-refl sys.world;
  safe = ++-All (λ g. Safe g sys.world) sys.running f s h;
}

behind-Reaches :
    {E A : Type 0} (call : Db World E A) (faults : List Fault) (sys : System)
    → Moves call (record { tables = sys.world; faults = faults })
    → AllSafe sys.running sys.world
    → Reaches sys (behind call faults sys)
behind-Reaches call faults sys on h = record {
  later = on;
  safe = AllSafe-Later sys.running sys.world _ on h;
}

settle-Reaches :
    (i : ℕ) (sys : System) (m : Moved)
    → Advanced sys.world m
    → AllSafe sys.running sys.world
    → Reaches sys (settle i sys.running m)
settle-Reaches i sys m a h = record {
  later = a.later;
  safe = with_child-AllSafe m.child (set sys.running i m.rest) m.world a.child_safe (
      set-All (λ g. Safe g m.world) sys.running i m.rest a.rest_safe
        (AllSafe-Later sys.running sys.world m.world a.later h));
}

-- Two orders that have one ticket.
Has-once :
    (o p : Order) (w : World)
    → o.ticket_id ≡ p.ticket_id
    → Has o w
    → Has p w
    → (o.id ≡ p.id) ⊎ (IsCanceled o.id w.orders ⊎ IsCanceled p.id w.orders)
Has-once o p w same (inr dead) h = inr (inl dead)
Has-once o p w same (inl c) (inr dead) = inr (inr dead)
Has-once o p w same (inl (row, there, held)) (inl (row', there', held')) =
    let one : row ≡ row' =
      some-injective row row' (sym there ∙ ap (λ t. lookup t w.tickets.tickets) same ∙ there') in
    inl (
      some-injective o.id p.id
        (sym held ∙ ap (λ (x : TicketRow). x.reserved_by_order_id) one ∙ held'))

module _ (uuid_parse : Text → Option ℕ) (uuid_text : ℕ → Text)
    (uuid_law : (id : ℕ) → uuid_parse (uuid_text id) ≡ some id) where
  step-Reaches :
      (e : Event) (sys : System)
      → AllSafe sys.running sys.world
      → Reaches sys (step uuid_parse uuid_text e sys)
  unfolding step
  step-Reaches (begin_create input) sys h =
      begin-Reaches _ sys (create_order_workflow-Safe input sys.world) h
  step-Reaches (begin_cancel input) sys h =
      begin-Reaches _ sys (cancel_order_workflow-Safe input sys.world) h
  step-Reaches (begin_resolve input) sys h =
      begin-Reaches _ sys (resolve_payment_workflow-Safe input sys.world) h
  step-Reaches (progress i now random_id faults) sys h =
      elim (Option-cases (get_elem? sys.running i)) [
        | inl nothing ↦ rw nothing (record { later = Later-refl sys.world; safe = h })
        | inr (f, found) ↦ rw found (
            settle-Reaches i sys _
              (advance-Advanced uuid_parse uuid_text uuid_law now random_id faults f sys.world
                (get_elem?-All (λ g. Safe g sys.world) sys.running i f found h))
              h)
      ]
  step-Reaches (pay id user faults) sys h =
      behind-Reaches (on_orders (start_payment id user)) faults sys
        (on_orders-Moves (start_payment id user) _ (λ before. start_payment-Evolves before id user))
        h
  step-Reaches (project ticket faults) sys h =
      behind-Reaches (on_orders (ensure_ticket_projection ticket)) faults sys
        (on_orders-Moves (ensure_ticket_projection ticket) _
          (λ before. ensure_ticket_projection-Evolves before ticket))
        h
  step-Reaches (create_ticket random_id input faults) sys h =
      behind-Reaches (on_tickets (create random_id input)) faults sys
        (on_tickets-Moves (create random_id input) _
          (λ ticket order row held. inl (create-At ticket row order held random_id input)))
        h
  step-Reaches (edit_ticket id input faults) sys h =
      behind-Reaches (on_tickets (update_with_idempotency id input)) faults sys
        (on_tickets-Moves (update_with_idempotency id input) _ (λ ticket order row held.
          inl (update_with_idempotency-At ticket row order held id input)))
        h

  run-Reaches :
      (h : List Event) (sys : System)
      → AllSafe sys.running sys.world
      → Reaches sys (run uuid_parse uuid_text h sys)
  unfolding run
  run-Reaches [] sys safe = record { later = Later-refl sys.world; safe = safe }
  run-Reaches (e ∷ es) sys safe =
      let next = step uuid_parse uuid_text e sys in
      let first = step-Reaches e sys safe in
      let rest = run-Reaches es next first.safe in
      record { later = Later-trans sys.world next.world _ first.later rest.later; safe = rest.safe }

  -- From databases with no workflow started, if UUIDs go through their texts unchanged: at any two
  -- points of a history, a ticket that an order has claimed at the first has, at the second, the same
  -- row, with the same claim, title, price and version, unless that order is there and canceled.
  pub run_claim_kept :
      (past future : List Event) (start : World) (ticket order : ℕ) (row : TicketRow)
      → lookup ticket (run uuid_parse uuid_text past (idle start)).world.tickets.tickets ≡ some row
      → row.reserved_by_order_id ≡ some order
      → let after = run uuid_parse uuid_text future (run uuid_parse uuid_text past (idle start)) in
        (lookup ticket after.world.tickets.tickets ≡ some row) ⊎ IsCanceled order after.world.orders
  run_claim_kept past future start =
      let before = run uuid_parse uuid_text past (idle start) in
      (run-Reaches future before (run-Reaches past (idle start) tt).safe).later.claims

  -- From databases with no workflow started, if UUIDs go through their texts unchanged: wherever the
  -- workflow of an order's creation has ended with a reservation, then and ever after the ticket of
  -- that reservation's order is claimed by it, unless the order is there and canceled.
  pub run_reservation_made :
      (h : List Event) (start : World) (i : ℕ) (r : ReservationResult)
      → get_elem? (run uuid_parse uuid_text h (idle start)).running i
        ≡ some (finish (ok (reservation_made r)))
      → Has r.order (run uuid_parse uuid_text h (idle start)).world
  unfolding Safe
  run_reservation_made h start i r e =
      let sys = run uuid_parse uuid_text h (idle start) in
      get_elem?-All (λ g. Safe g sys.world) sys.running i _ e (run-Reaches h (idle start) tt).safe

  -- From databases with no workflow started, if UUIDs go through their texts unchanged, no ticket is
  -- given away twice: where two workflows of creations have ended with reservations of one ticket,
  -- their orders are the same one, or one of them is there and canceled.
  pub run_booked_once :
      (h : List Event) (start : World) (i j : ℕ) (r s : ReservationResult)
      → get_elem? (run uuid_parse uuid_text h (idle start)).running i
        ≡ some (finish (ok (reservation_made r)))
      → get_elem? (run uuid_parse uuid_text h (idle start)).running j
        ≡ some (finish (ok (reservation_made s)))
      → r.order.ticket_id ≡ s.order.ticket_id
      → let orders = (run uuid_parse uuid_text h (idle start)).world.orders in
        (r.order.id ≡ s.order.id) ⊎ (IsCanceled r.order.id orders ⊎ IsCanceled s.order.id orders)
  run_booked_once h start i j r s e k same =
      Has-once r.order s.order (run uuid_parse uuid_text h (idle start)).world same
        (run_reservation_made h start i r e) (run_reservation_made h start j s k)
