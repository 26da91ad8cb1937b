-- ===== src/Orders/Service.antt =====
-- apps/orders/internal/order/service.go: validation in front of the coordinator and the
-- repository. An id that `uuid.Parse` accepts is given by its value, by the parameter `uuid_parse`.
use polyglot_ticketing_v.Base.{
  ℕ, ◌+◌, Bool, true, false, not, Option, none, some, List, [], Text, runes, text_eq, trim_space,
  if◌then◌else◌,
}
use polyglot_ticketing_v.Base.Db.{Session, Db}
use polyglot_ticketing_v.Base.ErrorCode.{invalid_argument}
use polyglot_ticketing_v.Base.Validation.{ValidationError, violation, Reply, if_valid, or_else}
use polyglot_ticketing_v.Orders.Model.{
  Error, Order, PaymentOrder, PaymentOutcome, unspecified, TicketReservationInput,
  ReservationResult, OrdersDb, expiration_window,
}
use polyglot_ticketing_v.Orders.Repository.{get_by_id_and_user, start_payment, list_by_user}

-- `Coordinator`.
pub record Coordinator : Type 0 where
  pub reserve_ticket : TicketReservationInput → Db OrdersDb Error ReservationResult
  pub cancel_order : ℕ → Text → Db OrdersDb Error Order
  pub resolve_payment_outcome : ℕ → PaymentOutcome → Db OrdersDb Error Order

-- `validateOrderUser`.
pub validate_order_user : Text → List ValidationError
validate_order_user user_id =
    if text_eq (trim_space user_id) []
    then violation invalid_argument (runes "userId") (runes "Order user is required.")
    else []

-- The test of the outcome in `ResolvePayment`.
pub validate_outcome : PaymentOutcome → List ValidationError
validate_outcome unspecified =
    violation invalid_argument (runes "outcome") (runes "Payment outcome is required.")
validate_outcome _ = []

module _ (uuid_parse : Text → Option ℕ) where
  abbrev has_id : Text → Bool
  has_id id = elim (uuid_parse id) [ none ↦ false | some _ ↦ true ]

  abbrev pub value : Text → ℕ
  value id = elim (uuid_parse id) [ none ↦ 0 | some v ↦ v ]

  -- `validateOrderID`.
  pub validate_order_id : Text → List ValidationError
  validate_order_id order_id =
      if not (has_id order_id)
      then violation invalid_argument (runes "orderId") (runes "Order ID must be a valid UUID.")
      else []

  -- `validateTicketReservation`.
  pub validate_ticket_reservation : Text → Text → List ValidationError
  unfolding validate_order_user
  validate_ticket_reservation ticket_id user_id =
      if not (has_id ticket_id)
      then violation invalid_argument (runes "ticketId") (runes "Ticket ID must be a valid UUID.")
      else validate_order_user user_id

  -- `GetOrder`.
  pub get_order : Text → Text → Session OrdersDb → Reply Error Order × Session OrdersDb
  unfolding validate_order_id validate_order_user
  get_order order_id user_id =
      if_valid (or_else (validate_order_id order_id) (validate_order_user user_id))
        (get_by_id_and_user (value order_id) user_id)

  -- `ListOrders`.
  pub list_orders : Text → Session OrdersDb → Reply Error (List Order) × Session OrdersDb
  unfolding validate_order_user
  list_orders user_id = if_valid (validate_order_user user_id) (list_by_user user_id)

  -- `StartPayment`.
  unfoldable pub start_checkout :
      Text → Text → Session OrdersDb → Reply Error PaymentOrder × Session OrdersDb
  unfolding validate_order_id validate_order_user
  start_checkout order_id user_id =
      if_valid (or_else (validate_order_id order_id) (validate_order_user user_id))
        (start_payment (value order_id) user_id)

  module _ (coordinator : Coordinator) where
    -- `ReserveTicket`, at the time that `now()` gives.
    pub reserve_ticket :
        ℕ → Text → Text → Session OrdersDb → Reply Error ReservationResult × Session OrdersDb
    unfolding validate_ticket_reservation
    reserve_ticket now ticket_id user_id =
        let input : TicketReservationInput = record {
          expires_at = now + expiration_window;
          order_id = none;
          ticket_id = value ticket_id;
          user_id = user_id;
        } in
        if_valid (validate_ticket_reservation ticket_id user_id) (coordinator.reserve_ticket input)

    -- `CancelOrder`.
    pub cancel_order : Text → Text → Session OrdersDb → Reply Error Order × Session OrdersDb
    unfolding validate_order_id validate_order_user
    cancel_order order_id user_id =
        if_valid (or_else (validate_order_id order_id) (validate_order_user user_id))
          (coordinator.cancel_order (value order_id) user_id)

    -- `ResolvePayment`.
    pub resolve_payment :
        Text → PaymentOutcome → Session OrdersDb → Reply Error Order × Session OrdersDb
    unfolding validate_order_id validate_outcome
    resolve_payment order_id outcome =
        if_valid (or_else (validate_order_id order_id) (validate_outcome outcome))
          (coordinator.resolve_payment_outcome (value order_id) outcome)
