-- ===== src/Base/Validation.antt =====
-- What the three services answer a request: the violations that they find in it, or what the call
-- behind it returns. Each has its own `ValidationError`, of one form.
use mathlib.Core.List.{List, [], ◌∷◌}
use polyglot_ticketing_v.Base.Strings.{Text}
use polyglot_ticketing_v.Base.ErrorCode.{ErrorCode, code_string}
use polyglot_ticketing_v.Base.Outcome.{Result}
use polyglot_ticketing_v.Base.Db.{Session, Db}

pub record ValidationError : Type 0 where
  pub code : Text
  pub field : Text
  pub message : Text

-- `[]ValidationError{{…}}`.
unfoldable pub violation : ErrorCode → Text → Text → List ValidationError
violation code field message =
    record { code = code_string code; field = field; message = message } ∷ []

-- A method's results: its validation errors, or its value and error.
pub data Reply (E A : Type 0) : Type 0 where
  refused : List ValidationError → Reply E A
  answered : Result E A → Reply E A

-- `if validationErrors := …; len(validationErrors) > 0 { return … }`, and then the call.
abbrev pub if_valid :
    {T E A : Type 0} → List ValidationError → Db T E A → Session T → Reply E A × Session T
if_valid [] call s = let (r, s') = call s in (answered r, s')
if_valid (e ∷ more) call s = (refused (e ∷ more), s)

-- Two validations in turn: the second where the first finds nothing.
abbrev pub or_else : List ValidationError → List ValidationError → List ValidationError
or_else [] second = second
or_else (e ∷ more) second = e ∷ more
