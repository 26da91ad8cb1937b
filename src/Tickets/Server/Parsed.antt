-- ===== src/Tickets/Server/Parsed.antt =====
-- The two handlers of reservations, on ids that parse.
use polyglot_ticketing_v.Base.{ℕ, ◌≡◌, ap, Option, some, Text}
use polyglot_ticketing_v.Base.Db.{Session}
use polyglot_ticketing_v.Base.Grpc.{handle, respond, unvalidated}
use polyglot_ticketing_v.Tickets.Model.{TicketsDb}
use polyglot_ticketing_v.Tickets.Repository.{reserve_for_order, release_order_reservation}
use polyglot_ticketing_v.Tickets.Service.Parsed.{
  reserve_ticket_for_order-parsed, release_ticket_reservation-parsed,
}
use polyglot_ticketing_v.Tickets.Server.{
  reserve_status, release_status, handle_reserve, handle_release,
}

module _ (uuid_parse : Text → Option ℕ) (ticket_id order_id : Text) (ticket order : ℕ)
    (t : uuid_parse ticket_id ≡ some ticket) (o : uuid_parse order_id ≡ some order) where
  pub handle_reserve-parsed :
      (s : Session TicketsDb)
      → handle_reserve uuid_parse ticket_id order_id s
        ≡ handle reserve_status (λ u. u) (unvalidated (reserve_for_order ticket order)) s
  unfolding handle_reserve
  handle_reserve-parsed s =
      ap (λ r. (respond reserve_status (λ u. u) r.0, r.1))
        (reserve_ticket_for_order-parsed uuid_parse ticket_id order_id ticket order t o s)

  pub handle_release-parsed :
      (s : Session TicketsDb)
      → handle_release uuid_parse ticket_id order_id s
        ≡ handle release_status (λ u. u) (unvalidated (release_order_reservation ticket order)) s
  unfolding handle_release
  handle_release-parsed s =
      ap (λ r. (respond release_status (λ u. u) r.0, r.1))
        (release_ticket_reservation-parsed uuid_parse ticket_id order_id ticket order t o s)
