-- ===== src/Tickets/Service/Parsed.antt =====
-- The two calls on reservations, on ids that parse: they go through to the repository.
use polyglot_ticketing_v.Base.{ℕ, ◌≡◌, arith, [], Option, some, Text}
use polyglot_ticketing_v.Base.Db.{Session}
use polyglot_ticketing_v.Base.Grpc.{unvalidated}
use polyglot_ticketing_v.Tickets.Model.{TicketsDb}
use polyglot_ticketing_v.Tickets.Repository.{reserve_for_order, release_order_reservation}
use polyglot_ticketing_v.Tickets.Service.{
  value, validate_reservation, reserve_ticket_for_order, release_ticket_reservation,
}

module _ (uuid_parse : Text → Option ℕ) (ticket_id order_id : Text) (ticket order : ℕ)
    (t : uuid_parse ticket_id ≡ some ticket) (o : uuid_parse order_id ≡ some order) where
  validate_reservation-parsed : validate_reservation uuid_parse ticket_id order_id ≡ []
  unfolding validate_reservation
  validate_reservation-parsed = ground (arith, t, o)

  value-ticket : value uuid_parse ticket_id ≡ ticket
  value-ticket = ground (arith, t)

  value-order : value uuid_parse order_id ≡ order
  value-order = ground (arith, o)

  pub reserve_ticket_for_order-parsed :
      (s : Session TicketsDb)
      → reserve_ticket_for_order uuid_parse ticket_id order_id s
        ≡ unvalidated (reserve_for_order ticket order) s
  unfolding reserve_ticket_for_order
  reserve_ticket_for_order-parsed s = rw (validate_reservation-parsed, value-ticket, value-order)

  pub release_ticket_reservation-parsed :
      (s : Session TicketsDb)
      → release_ticket_reservation uuid_parse ticket_id order_id s
        ≡ unvalidated (release_order_reservation ticket order) s
  unfolding release_ticket_reservation
  release_ticket_reservation-parsed s = rw (validate_reservation-parsed, value-ticket, value-order)
