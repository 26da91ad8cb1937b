-- ===== src/Base/Db.antt =====
-- Sessions with a database through the pgx driver. Each call of the driver may fail; a write
-- that fails may or may not have taken effect, as after a lost connection. What goes wrong is a
-- schedule with an entry for each call to come; past its end all goes well.
pub mod Laws
pub mod Keeps
pub mod Answers
pub mod Retry
pub mod Steady
use Prim.Native.Nat.{ℕ, ◌*◌, ◌/◌}
use mathlib.Core.Bool.{Bool, true, false}
use mathlib.Core.List.{List, [], ◌∷◌}
use polyglot_ticketing_v.Base.Outcome.{Result, ok, err}

-- What the driver reports: the three SQLSTATE codes that the services look at, a query that
-- wanted a row and found none, and all else.
pub data DbError : Type 0 where
  check_violation unique_violation invalid_text no_rows : DbError
  other : ℕ → DbError

-- How one call goes: as it should; refused, with no effect; or done, with the answer lost.
pub data Fault : Type 0 where
  healthy : Fault
  rejected lost : DbError → Fault

pub record Session (T : Type 0) : Type 0 where
  pub tables : T
  pub faults : List Fault

abbrev pub Db : Type 0 → Type 0 → Type 0 → Type 0
Db T E A = Session T → Result E A × Session T

-- What a TIMESTAMPTZ column keeps of a time in nanoseconds: whole microseconds.
abbrev pub timestamptz : ℕ → ℕ
timestamptz time = time / 1000 * 1000

abbrev pub next_fault : List Fault → Fault
next_fault [] = healthy
next_fault (f ∷ _) = f

abbrev pub later_faults : List Fault → List Fault
later_faults [] = []
later_faults (_ ∷ fs) = fs

module _ {T E A : Type 0} where
  abbrev pub pure : A → Db T E A
  pure a s = (ok a, s)

  abbrev pub raise : E → Db T E A
  raise e s = (err e, s)

  -- `if test { return a, nil }; return e`.
  unfoldable pub pure_if : Bool → A → E → Db T E A
  pure_if true a e s = (ok a, s)
  pure_if false a e s = (err e, s)

-- `if err != nil { return err }`, or on with the value.
abbrev pub proceed :
    {T E A B : Type 0} → (A → Db T E B) → Result E A → Session T → Result E B × Session T
proceed f (ok a) s = f a s
proceed f (err e) s = (err e, s)

infixl 5 ◌>>=◌ ◌>>◌
abbrev pub ◌>>=◌ : {T E A B : Type 0} → Db T E A → (A → Db T E B) → Db T E B
◌>>=◌ m f s = proceed f (m s).0 (m s).1

abbrev pub ◌>>◌ : {T E A B : Type 0} → Db T E A → Db T E B → Db T E B
m >> k = m >>= λ _. k

module _ {T E : Type 0} (database : DbError → E) where
  -- What the caller sees, and the tables behind it.
  unfoldable pub perform : {A : Type 0} → Fault → T → Result DbError (A × T) → Result E A × T
  perform healthy t (ok (a, t')) = (ok a, t')
  perform healthy t (err e) = (err (database e), t)
  perform (rejected e) t r = (err (database e), t)
  perform (lost e) t (ok (a, t')) = (err (database e), t')
  perform (lost e) t (err _) = (err (database e), t)

  -- One statement, with what it answers and does to the tables, or the violation it is refused for.
  unfoldable pub statement : {A : Type 0} → (T → Result DbError (A × T)) → Db T E A
  unfolding perform
  statement f s =
      let (r, t) = perform (next_fault s.faults) s.tables (f s.tables) in
      (r, record { tables = t; faults = later_faults s.faults })

  -- A statement that reads.
  unfoldable pub query : {A : Type 0} → (T → A) → Db T E A
  unfolding statement
  query f = statement (λ t. ok (f t, t))

  -- The end of a transaction: a commit of what the body wrote, or a rollback to what was there.
  unfoldable pub finish : {A : Type 0} → T → Result E A × Session T → Result E A × Session T
  unfolding perform
  finish before (err e, s) = (err e, record s { tables = before })
  finish before (ok a, s) =
      let (r, t) = perform (next_fault s.faults) before (ok (a, s.tables)) in
      (r, record { tables = t; faults = later_faults s.faults })

  -- `BeginTx`, the body, then `Commit` where the body succeeds and the deferred `Rollback` where
  -- it returns an error.
  unfoldable pub transaction : {A : Type 0} → Db T E A → Db T E A
  unfolding statement finish
  transaction body = query (λ _. tt) >>= λ _. λ s. finish s.tables (body s)
