-- ===== src/Orders/Server/Interceptor.antt =====
-- apps/orders/internal/grpc/validation.go. What protovalidate says of a request is an argument.
use polyglot_ticketing_v.Base.{List, [], ◌∷◌, ◌++◌, Text, runes, text_eq, if◌then◌else◌}
use polyglot_ticketing_v.Base.Db.{Db, raise}
use polyglot_ticketing_v.Base.ErrorCode.{invalid_argument}
use polyglot_ticketing_v.Base.Grpc.{Status, internal, structured_error, plain_error}
use polyglot_ticketing_v.Base.Grpc
use polyglot_ticketing_v.Base.Validation.{ValidationError, violation}

-- No error; a `ValidationError` with the JSON name of each violation's field, empty where there is
-- none; or another error.
pub data Verdict : Type 0 where
  valid : Verdict
  violations : List Text → Verdict
  unusable : Verdict

-- The switch on a field, with `invalidArgument`.
pub field_error : Text → List ValidationError
field_error field =
    if text_eq field (runes "ticketId")
    then violation invalid_argument field (runes "Ticket ID must be a valid UUID.")
    else if text_eq field (runes "orderId")
    then violation invalid_argument field (runes "Order ID must be a valid UUID.")
    else if text_eq field (runes "userId")
    then violation invalid_argument field (runes "Order user is required.")
    else violation invalid_argument field (runes "Invalid request field.")

-- `protobufValidationErrors`.
pub protobuf_validation_errors : List Text → List ValidationError
unfolding field_error
protobuf_validation_errors [] = []
protobuf_validation_errors (field ∷ fields) = field_error field ++ protobuf_validation_errors fields

-- `ValidationInterceptor`, in front of a handler.
pub validation_interceptor :
    {T R A : Type 0} → (R → Verdict) → (R → Db T Status A) → R → Db T Status A
unfolding protobuf_validation_errors
validation_interceptor validate handler request = elim (validate request) [
  | valid ↦ handler request
  | violations fields ↦
      raise (structured_error Grpc.invalid_argument (protobuf_validation_errors fields))
  | unusable ↦ raise (plain_error internal (runes "Unable to validate request."))
]
