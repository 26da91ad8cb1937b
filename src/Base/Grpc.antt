-- ===== src/Base/Grpc.antt =====
-- What the gRPC servers answer: google.golang.org/grpc's codes, and the two forms of a status's
-- message that the services write. `structuredError` of each server puts its errors in as JSON, which
-- is not written out: `json.Marshal` of strings does not fail.
use Prim.Native.Nat.{ℕ}
use mathlib.Core.List.{List, []}
use polyglot_ticketing_v.Base.Strings.{Text}
use polyglot_ticketing_v.Base.Outcome.{Result, ok, err}
use polyglot_ticketing_v.Base.Db.{Session, Db}
use polyglot_ticketing_v.Base.ErrorCode.{ErrorCode}
use polyglot_ticketing_v.Base.Validation.{ValidationError, violation, Reply, refused, answered}

-- `another` is a code that no service tells from the rest.
pub data Code : Type 0 where
  invalid_argument not_found already_exists permission_denied unauthenticated : Code
  unimplemented unavailable internal : Code
  another : ℕ → Code

pub data Message : Type 0 where
  plain : Text → Message
  structured : List ValidationError → Message

pub record Status : Type 0 where
  pub code : Code
  pub message : Message

-- `structuredError`.
abbrev pub structured_error : Code → List ValidationError → Status
structured_error code errors = record { code = code; message = structured errors }

-- `structuredError` of one error without a field.
abbrev pub one_error : Code → ErrorCode → Text → Status
one_error code name message = structured_error code (violation name [] message)

abbrev pub plain_error : Code → Text → Status
plain_error code message = record { code = code; message = plain message }

-- `nil, err` of the service by its status, or the response made of its value.
abbrev pub respond : {E A B : Type 0} → (E → Status) → (A → B) → Reply E A → Result Status B
respond to_status to_response (refused errors) = err (structured_error invalid_argument errors)
respond to_status to_response (answered (err e)) = err (to_status e)
respond to_status to_response (answered (ok a)) = ok (to_response a)

-- A handler: a call of the service, and its answer by `respond`.
abbrev pub handle :
    {T E A B : Type 0}
    → (E → Status)
    → (A → B)
    → (Session T → Reply E A × Session T)
    → Db T Status B
handle to_status to_response call s =
    let (reply, s') = call s in (respond to_status to_response reply, s')

-- A service's call that validates nothing.
abbrev pub unvalidated : {T E A : Type 0} → Db T E A → Session T → Reply E A × Session T
unvalidated call s = let (r, s') = call s in (answered r, s')
