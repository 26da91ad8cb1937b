-- ===== src/Base/ErrorCode.antt =====
-- The error codes of proto/common/v1/error.proto, and `String` of package errorcode, which
-- apps/orders, apps/tickets and apps/payments each have in the same form.
use mathlib.Core.Path.{◌≡◌, refl}
use mathlib.Core.Bool.{Bool, true, false, not, ◌||◌}
use mathlib.Core.List.{◌++◌}
use polyglot_ticketing_v.Base.Tests.{if◌then◌else◌}
use polyglot_ticketing_v.Base.Strings.{Text, runes, has_prefix, trim_prefix}

-- `unknown` is a number that is no enumerator, with its decimal digits.
pub data ErrorCode : Type 0 where
  unspecified invalid_argument invalid_name invalid_email invalid_password : ErrorCode
  invalid_title invalid_price invalid_credentials email_not_verified : ErrorCode
  invalid_verification_token already_exists unauthenticated forbidden not_found : ErrorCode
  rate_limited service_unavailable internal_error : ErrorCode
  unknown : Text → ErrorCode

-- `code.String()`.
pub enum_name : ErrorCode → Text
enum_name unspecified = runes "ERROR_CODE_UNSPECIFIED"
enum_name invalid_argument = runes "ERROR_CODE_INVALID_ARGUMENT"
enum_name invalid_name = runes "ERROR_CODE_INVALID_NAME"
enum_name invalid_email = runes "ERROR_CODE_INVALID_EMAIL"
enum_name invalid_password = runes "ERROR_CODE_INVALID_PASSWORD"
enum_name invalid_title = runes "ERROR_CODE_INVALID_TITLE"
enum_name invalid_price = runes "ERROR_CODE_INVALID_PRICE"
enum_name invalid_credentials = runes "ERROR_CODE_INVALID_CREDENTIALS"
enum_name email_not_verified = runes "ERROR_CODE_EMAIL_NOT_VERIFIED"
enum_name invalid_verification_token = runes "ERROR_CODE_INVALID_VERIFICATION_TOKEN"
enum_name already_exists = runes "ERROR_CODE_ALREADY_EXISTS"
enum_name unauthenticated = runes "ERROR_CODE_UNAUTHENTICATED"
enum_name forbidden = runes "ERROR_CODE_FORBIDDEN"
enum_name not_found = runes "ERROR_CODE_NOT_FOUND"
enum_name rate_limited = runes "ERROR_CODE_RATE_LIMITED"
enum_name service_unavailable = runes "ERROR_CODE_SERVICE_UNAVAILABLE"
enum_name internal_error = runes "ERROR_CODE_INTERNAL_ERROR"
enum_name (unknown digits) = digits

-- `enumPrefix`.
abbrev pub enum_prefix : Text
enum_prefix = runes "ERROR_CODE_"

abbrev is_unspecified : ErrorCode → Bool
is_unspecified unspecified = true
is_unspecified _ = false

-- `String`.
pub code_string : ErrorCode → Text
unfolding enum_name
code_string code =
    let name = enum_name code in
    let named =
      if is_unspecified code || not (has_prefix name enum_prefix)
      then enum_name internal_error
      else name in
    trim_prefix named enum_prefix

-- The code is one of the enumerators but the unspecified one.
abbrev pub IsSpecified : ErrorCode → Type 0
IsSpecified unspecified = ⊥
IsSpecified (unknown _) = ⊥
IsSpecified _ = Unit

-- The string of a specified code gives its enumerator back when the prefix is put before it.
pub code_string-enum_prefix :
    (code : ErrorCode) → IsSpecified code → enum_prefix ++ code_string code ≡ enum_name code
unfolding code_string has_prefix trim_prefix
code_string-enum_prefix unspecified h = absurd h
code_string-enum_prefix (unknown digits) h = absurd h
code_string-enum_prefix invalid_argument h = refl
code_string-enum_prefix _ h = refl
