-- ===== src/Tickets/Server.antt =====
-- apps/tickets/internal/grpc/server.go: the handlers, each a call of the service and the status of
-- its error. Logging is left out.
pub mod Parsed
use polyglot_ticketing_v.Base.{ℕ, Bool, Option, List, map, Text, runes}
use polyglot_ticketing_v.Base.Int.{ℤ}
use polyglot_ticketing_v.Base.Db.{Db}
use polyglot_ticketing_v.Base.ErrorCode
use polyglot_ticketing_v.Base.Grpc.{
  Status, permission_denied, unavailable, internal, one_error, handle, unvalidated,
}
use polyglot_ticketing_v.Base.Grpc
use polyglot_ticketing_v.Tickets.Model.{
  Error, forbidden, not_found, reserved, unavailable as unavailable_error, Ticket, CreateInput,
  UpdateInput, TicketsDb,
}
use polyglot_ticketing_v.Tickets.Service.{
  Coordinator, create_ticket, update_ticket, reserve_ticket_for_order, release_ticket_reservation,
  list_tickets, get_ticket,
}

-- The fields of ticketsv1's requests and responses.
pub record CreateTicketRequest : Type 0 where
  pub title : Text
  pub price : ℤ
  pub user_id : Text
  pub idempotency_key : Option Text

pub record UpdateTicketRequest : Type 0 where
  pub id : Text
  pub idempotency_key : Text
  pub title : Text
  pub price : ℤ
  pub user_id : Text

pub record TicketResponse : Type 0 where
  pub id : ℕ
  pub price : ℤ
  pub title : Text
  pub user_id : Text

-- `toCreateTicketResponse` and `toTicketResponse`.
abbrev pub to_ticket_response : Ticket → TicketResponse
to_ticket_response ticket = record {
  id = ticket.id;
  price = ticket.price;
  title = ticket.title;
  user_id = ticket.user_id;
}

abbrev ticket_not_found : Status
ticket_not_found = one_error Grpc.not_found ErrorCode.not_found (runes "Ticket not found.")

pub create_ticket_status : Error → Status
create_ticket_status unavailable_error = one_error unavailable ErrorCode.service_unavailable (
    runes
      "ticket operation is unavailable or still in progress; retry with the same Idempotency-Key")
create_ticket_status _ =
    one_error internal ErrorCode.internal_error (runes "Unable to create ticket.")

pub update_ticket_status : Error → Status
update_ticket_status forbidden =
    one_error permission_denied ErrorCode.forbidden
      (runes "You do not have permission to update this ticket.")
update_ticket_status reserved =
    one_error permission_denied ErrorCode.forbidden
      (runes "Ticket cannot be updated while reserved by an order.")
update_ticket_status not_found = ticket_not_found
update_ticket_status _ =
    one_error internal ErrorCode.internal_error (runes "Unable to update ticket.")

unfoldable pub reserve_status : Error → Status
reserve_status not_found = ticket_not_found
reserve_status reserved =
    one_error Grpc.already_exists ErrorCode.already_exists (runes "Ticket is currently reserved.")
reserve_status _ =
    one_error unavailable ErrorCode.service_unavailable (runes "Unable to reserve ticket.")

unfoldable pub release_status : Error → Status
release_status not_found = ticket_not_found
release_status _ =
    one_error unavailable ErrorCode.service_unavailable
      (runes "Unable to release ticket reservation.")

pub list_status : Error → Status
list_status _ = one_error internal ErrorCode.internal_error (runes "Unable to retrieve tickets.")

pub get_status : Error → Status
get_status not_found = ticket_not_found
get_status _ = one_error internal ErrorCode.internal_error (runes "Unable to retrieve ticket.")

module _ (coordinator : Coordinator) where
  -- `CreateTicket`.
  pub handle_create_ticket : CreateTicketRequest → Db TicketsDb Status TicketResponse
  unfolding create_ticket_status
  handle_create_ticket request =
      let input : CreateInput = record {
        id = Option.none;
        idempotency_key = request.idempotency_key;
        title = request.title;
        price = request.price;
        user_id = request.user_id;
      } in
      handle create_ticket_status to_ticket_response (create_ticket coordinator input)

  -- `UpdateTicket`.
  pub handle_update_ticket : UpdateTicketRequest → Db TicketsDb Status TicketResponse
  unfolding update_ticket_status
  handle_update_ticket request =
      let input : UpdateInput = record {
        idempotency_key = request.idempotency_key;
        title = request.title;
        price = request.price;
        user_id = request.user_id;
      } in
      handle update_ticket_status to_ticket_response (update_ticket coordinator request.id input)

module _ (uuid_parse : Text → Option ℕ) where
  -- `ReserveTicketForOrder`.
  unfoldable pub handle_reserve : Text → Text → Db TicketsDb Status (Unit {0})
  unfolding reserve_status
  handle_reserve ticket_id order_id =
      handle reserve_status (λ u. u) (reserve_ticket_for_order uuid_parse ticket_id order_id)

  -- `ReleaseTicketReservation`.
  unfoldable pub handle_release : Text → Text → Db TicketsDb Status (Unit {0})
  unfolding release_status
  handle_release ticket_id order_id =
      handle release_status (λ u. u) (release_ticket_reservation uuid_parse ticket_id order_id)

-- `ListTickets`, by the database's collation.
pub handle_list : (Text → Text → Bool) → Db TicketsDb Status (List TicketResponse)
unfolding list_status
handle_list title_before =
    handle list_status (map to_ticket_response) (unvalidated (list_tickets title_before))

-- `GetTicket`, of an id that PostgreSQL reads.
pub handle_get : ℕ → Db TicketsDb Status TicketResponse
unfolding get_status
handle_get id = handle get_status to_ticket_response (unvalidated (get_ticket id))
