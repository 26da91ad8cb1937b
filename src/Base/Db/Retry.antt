-- ===== src/Base/Db/Retry.antt =====
-- Attempts that the driver fails, and what a later attempt finds: a computation is safe to retry
-- where an attempt that failed makes no difference to the next.
use mathlib.Core.Path.{◌≡◌, refl, ◌∙◌}
use mathlib.Core.List.{List, [], ◌∷◌}
use polyglot_ticketing_v.Base.Outcome.{ok}
use polyglot_ticketing_v.Base.Db.{DbError, Fault, Session, Db, ◌>>=◌, statement}
use polyglot_ticketing_v.Base.Db.Laws.{ensures_bind, ensures_statement}
use polyglot_ticketing_v.Base.Db.Keeps.{Keeps}

-- A session in which nothing goes wrong.
abbrev pub calm : {T : Type 0} → T → Session T
calm t = record { tables = t; faults = [] }

-- Attempt after attempt, each with its own faults, and the tables that they leave.
pub attempts : {T E A : Type 0} → Db T E A → List (List Fault) → T → T
attempts m [] t = t
attempts m (faults ∷ more) t = attempts m more (m (record { tables = t; faults = faults })).1.tables

-- What an attempt leaves is as good for the next one as what it found.
abbrev pub RetrySafe : {T E A : Type 0} → Db T E A → Type 0
RetrySafe {T} m = (t : T) → Keeps (λ u. m (calm u) ≡ m (calm t)) m

-- After any attempts, however they failed, one that goes well answers and does what a single one
-- would have from the start.
pub attempts-RetrySafe :
    {T E A : Type 0} (m : Db T E A)
    → RetrySafe m
    → (failures : List (List Fault)) (t : T) → m (calm (attempts m failures t)) ≡ m (calm t)
unfolding attempts
attempts-RetrySafe m safe [] t = refl
attempts-RetrySafe m safe (faults ∷ more) t =
    attempts-RetrySafe m safe more (m (record { tables = t; faults = faults })).1.tables
    ∙ (safe t).holds (record { tables = t; faults = faults }) refl

-- One write and then reads: it is enough that the write, once made, is not made again.
pub write-RetrySafe :
    {T E A B : Type 0} (database : DbError → E) (write : T → A × T) (rest : A → Db T E B)
    → ((I : T → Type 0) (a : A) → Keeps I (rest a))
    → ((t : T)
        → (statement database (λ u. ok (write u)) >>= rest) (calm (write t).1)
          ≡ (statement database (λ u. ok (write u)) >>= rest) (calm t))
    → RetrySafe (statement database (λ u. ok (write u)) >>= rest)
write-RetrySafe database write rest reads again t =
    ensures_bind
      (λ _ u.
        (statement database (λ v. ok (write v)) >>= rest) (calm u)
        ≡ (statement database (λ v. ok (write v)) >>= rest) (calm t))
      (ensures_statement database (λ u. ok (write u))
        λ u h. (again u ∙ h, λ e. h, λ e. again u ∙ h))
      (reads _)
