-- ===== src/Reservation/History/Calm.antt =====
-- Histories in which nothing goes wrong: the workflows come to their ends.
use polyglot_ticketing_v.Base.{ℕ, ◌≡◌, [], ◌∷◌, Option, none, some, Text, ok, true}
use polyglot_ticketing_v.Base.Table.{lookup}
use polyglot_ticketing_v.Base.Db.{timestamptz}
use polyglot_ticketing_v.World.{World}
use polyglot_ticketing_v.Orders.Model
use polyglot_ticketing_v.Orders.Model.{TicketReservationInput, OrderRow}
use polyglot_ticketing_v.Orders.Repository.{scan_order}
use polyglot_ticketing_v.Orders.Repository.Invariant.{IsValid}
use polyglot_ticketing_v.Orders.Repository.Reservation.{
  IsUnheld, new_row, with_order, reserve_ticket-free,
}
use polyglot_ticketing_v.Orders.Repository.Cancel.{with_canceled, cancel_by_id_and_user-created}
use polyglot_ticketing_v.Tickets.Model.{TicketRow}
use polyglot_ticketing_v.Tickets.Repository.Free.{
  with_claim, reserve_for_order-free, release_order_reservation-own,
}
use polyglot_ticketing_v.Reservation.Activities.{CancelInput, ExpireInput}
use polyglot_ticketing_v.Reservation.Activities.Calm.{
  reserve_order-calm, cancel_order-calm, claim_ticket-calm, release_ticket-calm,
}
use polyglot_ticketing_v.Reservation.Workflow.{
  finish, reservation_made, order_canceled, create_order_workflow, cancel_order_workflow,
  expire_order_workflow,
}
use polyglot_ticketing_v.Reservation.System.{advance}
use polyglot_ticketing_v.Reservation.History.{
  idle, Event, begin_create, begin_cancel, progress, step, run,
}

-- The first workflow goes on, and nothing goes wrong.
abbrev pub on : ℕ → ℕ → Event
on now random_id = progress 0 now random_id []

-- What the new order's expiry is started with.
abbrev pub expiry_of : ℕ → TicketReservationInput → ExpireInput
expiry_of id input = record {
  expires_at = timestamptz input.expires_at;
  order_id = id;
  ticket_id = input.ticket_id;
}

module _ (uuid_parse : Text → Option ℕ) (uuid_text : ℕ → Text)
    (uuid_law : (id : ℕ) → uuid_parse (uuid_text id) ≡ some id) (now random_id : ℕ)
    (w : World) where
  module _ (id : ℕ) (input : TicketReservationInput) (projected : Model.TicketRow) (row : TicketRow)
      (valid : IsValid w.orders) (known : lookup input.ticket_id w.orders.tickets ≡ some projected)
      (unheld : IsUnheld input.ticket_id w.orders) (unused : lookup id w.orders.orders ≡ none)
      (named : input.order_id ≡ some id)
      (there : lookup input.ticket_id w.tickets.tickets ≡ some row)
      (free : row.reserved_by_order_id ≡ none) where
    -- If UUIDs go through their texts unchanged, the tables of Orders are valid, the ticket is
    -- projected, no order holds it and none claims it, and the given order id is unused, then the
    -- workflow of a creation ends within three steps in which nothing goes wrong: with the new order
    -- reserved, its deadline cut down to whole microseconds, the ticket claimed by it, its expiry started
    -- for that deadline, and nothing else changed.
    pub run_creation_completes :
        run uuid_parse uuid_text
          (begin_create input ∷ on now random_id ∷ on now random_id ∷ on now random_id ∷ [])
          (idle w)
        ≡ record {
          running =
              finish (
                ok (
                  reservation_made
                    (record { created = true; order = scan_order id (new_row input) })))
              ∷ expire_order_workflow (expiry_of id input)
              ∷ [];
          world = record w {
            orders = with_order id input w.orders;
            tickets = with_claim input.ticket_id row (some id) w.tickets;
          };
        }
    unfolding run step advance create_order_workflow
    run_creation_completes =
        let order = scan_order id (new_row input) in
        let reserved = reserve_order-calm w random_id input _ _ (
          reserve_ticket-free id input projected w.orders valid known unheld unused named
            random_id) in
        let claimed =
          claim_ticket-calm (record w { orders = with_order id input w.orders }) uuid_parse
            uuid_text uuid_law order _
            (reserve_for_order-free input.ticket_id id row w.tickets there free) in
        rw reserved (rw claimed)

  module _ (id : ℕ) (order : OrderRow) (row : TicketRow)
      (known : lookup id w.orders.orders ≡ some order) (fresh : order.status ≡ Model.created)
      (there : lookup order.ticket_id w.tickets.tickets ≡ some row)
      (held : row.reserved_by_order_id ≡ some id) where
    -- If UUIDs go through their texts unchanged, the order is Created and has the claim of its ticket,
    -- then the workflow of its cancellation by its owner ends within two steps in which nothing goes
    -- wrong: with the order canceled, the ticket free again, and nothing else changed.
    pub run_cancellation_completes :
        run uuid_parse uuid_text
          (begin_cancel (record { order_id = id; user_id = order.user_id })
            ∷ on now random_id
            ∷ on now random_id
            ∷ [])
          (idle w)
        ≡ record {
          running =
              finish
                (ok (order_canceled (scan_order id (record order { status = Model.canceled }))))
              ∷ [];
          world = record w {
            orders = with_canceled id order w.orders;
            tickets = with_claim order.ticket_id row none w.tickets;
          };
        }
    unfolding run step advance cancel_order_workflow
    run_cancellation_completes =
        let input : CancelInput = record { order_id = id; user_id = order.user_id } in
        let canceled =
          cancel_order-calm w input _ _
            (cancel_by_id_and_user-created id order w.orders known fresh) in
        let released =
          release_ticket-calm (record w { orders = with_canceled id order w.orders }) uuid_parse
            uuid_text uuid_law (scan_order id (record order { status = Model.canceled })) _
            (release_order_reservation-own order.ticket_id id row w.tickets there held) in
        rw canceled (rw released)
