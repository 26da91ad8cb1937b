-- ===== src/Tickets/Service.antt =====
-- apps/tickets/internal/ticket/service.go: validation in front of the coordinator and the
-- repository. An id that `uuid.Parse` accepts is given by its value, by the parameter `uuid_parse`.
pub mod Accepted
pub mod Parsed
pub mod Projectable
use polyglot_ticketing_v.Base.{
  ℕ, Bool, true, false, not, ◌&&◌, ◌||◌, Option, none, some, List, [], ◌∷◌, Text, runes, text_eq,
  trim_space, byte_len, leb, if◌then◌else◌,
}
use polyglot_ticketing_v.Base.Int.{ℤ, pos, leb_ℤ, ltb_ℤ}
use polyglot_ticketing_v.Base.Db.{Session, Db}
use polyglot_ticketing_v.Base.ErrorCode.{invalid_argument, invalid_title, invalid_price}
use polyglot_ticketing_v.Base.Validation.{ValidationError, violation, Reply, if_valid, or_else}
use polyglot_ticketing_v.Tickets.Model.{Error, Ticket, CreateInput, UpdateInput, TicketsDb}
use polyglot_ticketing_v.Tickets.Repository.{
  list, find_by_id, reserve_for_order, release_order_reservation,
}

-- `MaxPrice`, 2 ^ 53 - 1.
abbrev pub max_price : ℤ
max_price = pos 9007199254740991

-- The loop of `validateIdempotencyKey`, with the value of `valid` before it.
pub all_printable : Bool → Text → Bool
all_printable valid [] = valid
all_printable valid (c ∷ key) = all_printable (valid && leb 32 c && leb c 126) key

abbrev is_empty : Text → Bool
is_empty s = text_eq s []

-- `validateIdempotencyKey`.
pub validate_idempotency_key : Text → Bool → List ValidationError
unfolding all_printable violation
validate_idempotency_key key required =
    let valid = all_printable (leb (byte_len key) 128) key in
    if is_empty key && required
    then violation invalid_argument (runes "idempotencyKey") (runes "Idempotency-Key is required.")
    else if is_empty key
    then []
    else if valid
    then []
    else violation invalid_argument (runes "idempotencyKey")
        (runes "Idempotency-Key must contain 1 to 128 printable ASCII characters.")

-- `validateMutation`.
unfoldable pub validate_mutation : Text → ℤ → Text → List ValidationError
unfolding violation
validate_mutation title price user_id =
    if is_empty (trim_space title)
    then violation invalid_title (runes "title") (runes "Title is required.")
    else if leb_ℤ price (pos 0) || ltb_ℤ max_price price
    then violation invalid_price (runes "price")
        (runes "Price must be between 1 and 9007199254740991.")
    else if is_empty user_id
    then violation invalid_argument (runes "userId") (runes "Ticket owner is required.")
    else []

-- The key of a creation, which may have none.
abbrev pub validate_optional_key : Option Text → List ValidationError
validate_optional_key none = []
validate_optional_key (some key) = validate_idempotency_key key false

module _ (uuid_parse : Text → Option ℕ) where
  abbrev has_id : Text → Bool
  has_id id = elim (uuid_parse id) [ none ↦ false | some _ ↦ true ]

  abbrev pub value : Text → ℕ
  value id = elim (uuid_parse id) [ none ↦ 0 | some v ↦ v ]

  -- `validateReservation`.
  unfoldable pub validate_reservation : Text → Text → List ValidationError
  unfolding violation
  validate_reservation ticket_id order_id =
      if not (has_id ticket_id)
      then violation invalid_argument (runes "ticketId") (runes "Ticket ID must be a valid UUID.")
      else if not (has_id order_id)
      then violation invalid_argument (runes "orderId") (runes "Order ID must be a valid UUID.")
      else []

  -- `ReserveTicketForOrder`.
  unfoldable pub reserve_ticket_for_order :
      Text → Text → Session TicketsDb → Reply Error (Unit {0}) × Session TicketsDb
  unfolding validate_reservation
  reserve_ticket_for_order ticket_id order_id =
      if_valid (validate_reservation ticket_id order_id)
        (reserve_for_order (value ticket_id) (value order_id))

  -- `ReleaseTicketReservation`.
  unfoldable pub release_ticket_reservation :
      Text → Text → Session TicketsDb → Reply Error (Unit {0}) × Session TicketsDb
  unfolding validate_reservation
  release_ticket_reservation ticket_id order_id =
      if_valid (validate_reservation ticket_id order_id)
        (release_order_reservation (value ticket_id) (value order_id))

-- `Coordinator`.
pub record Coordinator : Type 0 where
  pub create : CreateInput → Db TicketsDb Error Ticket
  pub update : Text → UpdateInput → Db TicketsDb Error Ticket

module _ (coordinator : Coordinator) where
  -- `CreateTicket`.
  pub create_ticket : CreateInput → Session TicketsDb → Reply Error Ticket × Session TicketsDb
  unfolding validate_mutation validate_idempotency_key
  create_ticket input =
      if_valid
        (or_else (validate_mutation input.title input.price input.user_id)
          (validate_optional_key input.idempotency_key))
        (coordinator.create input)

  -- `UpdateTicket`.
  pub update_ticket :
      Text → UpdateInput → Session TicketsDb → Reply Error Ticket × Session TicketsDb
  unfolding validate_mutation validate_idempotency_key
  update_ticket id input =
      if_valid
        (or_else (validate_mutation input.title input.price input.user_id)
          (validate_idempotency_key input.idempotency_key true))
        (coordinator.update id input)

-- `GetTicket` and `ListTickets` only pass the call on.
abbrev pub get_ticket : ℕ → Db TicketsDb Error Ticket
get_ticket = find_by_id

abbrev pub list_tickets : (Text → Text → Bool) → Db TicketsDb Error (List Ticket)
list_tickets = list
