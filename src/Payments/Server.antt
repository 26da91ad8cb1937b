-- ===== src/Payments/Server.antt =====
-- apps/payments/internal/grpc/server.go: the handler, a call of the service and the status of its
-- error. Logging is left out.
use polyglot_ticketing_v.Base.{ℕ, Bool, Option, Text, runes}
use polyglot_ticketing_v.Base.Db.{Db}
use polyglot_ticketing_v.Base.ErrorCode
use polyglot_ticketing_v.Base.Grpc.{Status, internal, one_error, handle}
use polyglot_ticketing_v.Base.Grpc
use polyglot_ticketing_v.Payments.Model.{
  Error, order_not_found, order_not_payable, unavailable, Payment, PaymentsDb,
}
use polyglot_ticketing_v.Payments.Service.{CreateCoordinator, create_payment}

-- `paymentsv1.CreatePaymentResponse`, with its payment's fields.
pub record CreatePaymentResponse : Type 0 where
  pub created : Bool
  pub id : ℕ
  pub order_id : ℕ

pub create_payment_status : Error → Status
create_payment_status order_not_found =
    one_error Grpc.not_found ErrorCode.not_found (runes "Order not found.")
create_payment_status order_not_payable =
    one_error Grpc.already_exists ErrorCode.already_exists (runes "Order cannot be paid.")
create_payment_status unavailable =
    one_error Grpc.unavailable ErrorCode.service_unavailable
      (runes "Payment creation is still in progress.")
create_payment_status _ =
    one_error internal ErrorCode.internal_error (runes "Unable to create payment.")

abbrev pub to_response : Payment × Bool → CreatePaymentResponse
to_response (payment, was_created) = record {
  created = was_created;
  id = payment.id;
  order_id = payment.order_id;
}

-- `CreatePayment`.
pub handle_create_payment :
    (Text → Option ℕ) → CreateCoordinator → Text → Text → Db PaymentsDb Status CreatePaymentResponse
unfolding create_payment_status
handle_create_payment uuid_parse coordinator order_id user_id =
    handle create_payment_status to_response
      (create_payment uuid_parse coordinator order_id user_id)
