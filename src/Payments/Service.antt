-- ===== src/Payments/Service.antt =====
-- apps/payments/internal/payment/service.go: validation, the replay of a payment that is there, and
-- the coordinator. An id that `uuid.Parse` accepts is given by its value.
use polyglot_ticketing_v.Base.{
  ℕ, Bool, true, false, not, Option, none, some, List, [], Text, runes, text_eq, trim_space,
  if◌then◌else◌,
}
use polyglot_ticketing_v.Base.Db.{Session, Db, pure, ◌>>=◌}
use polyglot_ticketing_v.Base.ErrorCode.{invalid_argument}
use polyglot_ticketing_v.Base.Validation.{ValidationError, violation, Reply, if_valid}
use polyglot_ticketing_v.Payments.Model.{Error, Payment, CreateInput, CreateResult, PaymentsDb}
use polyglot_ticketing_v.Payments.Repository.{find_by_order_and_user}

-- `CreateCoordinator`.
pub record CreateCoordinator : Type 0 where
  pub create_payment : CreateInput → Db PaymentsDb Error CreateResult

-- The coordinator is asked only where there is no payment yet.
pub found_or_created :
    CreateCoordinator → CreateInput → Option Payment → Db PaymentsDb Error (Payment × Bool)
found_or_created coordinator input (some existing) = pure (existing, false)
found_or_created coordinator input none = do
  created ← coordinator.create_payment input
  pure (created.payment, created.created)

module _ (uuid_parse : Text → Option ℕ) where
  abbrev has_id : Text → Bool
  has_id id = elim (uuid_parse id) [ none ↦ false | some _ ↦ true ]

  abbrev value : Text → ℕ
  value id = elim (uuid_parse id) [ none ↦ 0 | some v ↦ v ]

  -- `validateCreate`.
  pub validate_create : Text → Text → List ValidationError
  validate_create order_id user_id =
      if not (has_id order_id)
      then violation invalid_argument (runes "orderId") (runes "Order ID must be a valid UUID.")
      else if text_eq (trim_space user_id) []
      then violation invalid_argument (runes "userId") (runes "Payment user is required.")
      else []

  -- `CreatePayment`.
  pub create_payment :
      CreateCoordinator
      → Text
      → Text
      → Session PaymentsDb
      → Reply Error (Payment × Bool) × Session PaymentsDb
  unfolding validate_create found_or_created
  create_payment coordinator order_id user_id =
      let input : CreateInput = record { order_id = value order_id; user_id = user_id } in
      if_valid (validate_create order_id user_id) do
        found ← find_by_order_and_user input.order_id input.user_id
        found_or_created coordinator input found
