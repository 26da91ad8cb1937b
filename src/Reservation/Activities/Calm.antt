-- ===== src/Reservation/Activities/Calm.antt =====
-- The activities where nothing goes wrong: the answer of the call behind each.
use polyglot_ticketing_v.Base.{ℕ, ◌≡◌, Option, some, Text, ok}
use polyglot_ticketing_v.Base.Db.Retry.{calm}
use polyglot_ticketing_v.World.{World}
use polyglot_ticketing_v.Orders.Model.{Order, TicketReservationInput, ReservationResult, OrdersDb}
use polyglot_ticketing_v.Orders.Repository.{reserve_ticket, cancel_by_id_and_user}
use polyglot_ticketing_v.Tickets.Model.{TicketsDb}
use polyglot_ticketing_v.Tickets.Repository.{reserve_for_order, release_order_reservation}
use polyglot_ticketing_v.Tickets.Server.Parsed.{handle_reserve-parsed, handle_release-parsed}
use polyglot_ticketing_v.Reservation.Activities.{
  CancelInput, reserve_order, cancel_order, claim_ticket, release_ticket,
}

module _ (w : World) where
  pub reserve_order-calm :
      (random_id : ℕ) (input : TicketReservationInput) (r : ReservationResult) (db : OrdersDb)
      → reserve_ticket random_id input (calm w.orders) ≡ (ok r, calm db)
      → reserve_order random_id input (calm w) ≡ (ok r, calm (record w { orders = db }))
  unfolding reserve_order
  reserve_order-calm random_id input r db e = rw e

  pub cancel_order-calm :
      (input : CancelInput) (o : Order) (db : OrdersDb)
      → cancel_by_id_and_user input.order_id input.user_id (calm w.orders) ≡ (ok o, calm db)
      → cancel_order input (calm w) ≡ (ok o, calm (record w { orders = db }))
  unfolding cancel_order
  cancel_order-calm input o db e = rw e

  module _ (uuid_parse : Text → Option ℕ) (uuid_text : ℕ → Text)
      (uuid_law : (id : ℕ) → uuid_parse (uuid_text id) ≡ some id) (o : Order) (db : TicketsDb) where
    pub claim_ticket-calm :
        reserve_for_order o.ticket_id o.id (calm w.tickets) ≡ (ok tt, calm db)
        → claim_ticket uuid_parse uuid_text o (calm w) ≡ (ok tt, calm (record w { tickets = db }))
    unfolding claim_ticket
    claim_ticket-calm e =
        rw
          (handle_reserve-parsed uuid_parse (uuid_text o.ticket_id) (uuid_text o.id) o.ticket_id
            o.id (uuid_law o.ticket_id) (uuid_law o.id) (calm w.tickets))
          (rw e)

    pub release_ticket-calm :
        release_order_reservation o.ticket_id o.id (calm w.tickets) ≡ (ok tt, calm db)
        → release_ticket uuid_parse uuid_text o (calm w) ≡ (ok tt, calm (record w { tickets = db }))
    unfolding release_ticket
    release_ticket-calm e =
        rw
          (handle_release-parsed uuid_parse (uuid_text o.ticket_id) (uuid_text o.id) o.ticket_id
            o.id (uuid_law o.ticket_id) (uuid_law o.id) (calm w.tickets))
          (rw e)
