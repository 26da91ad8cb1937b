-- ===== src/Base/Db/Keeps.antt =====
-- The program logic where one property of the tables is kept throughout.
use mathlib.Core.Path.{sym, subst}
use mathlib.Core.Bool.{Bool}
use polyglot_ticketing_v.Base.Outcome.{Result, ok, err}
use polyglot_ticketing_v.Base.Db.{
  DbError, Db, pure, raise, pure_if, ◌>>=◌, statement, query, transaction,
}
use polyglot_ticketing_v.Base.Db.Laws.{
  Ensures, ensures_pure_if, ensures_pure, ensures_raise, Then, ensures_bind, Meets,
  ensures_statement, ensures_query, Ends, ensures_transaction,
}

-- Whatever goes wrong, the property holds behind the call if it held before.
abbrev pub Keeps : {T E A : Type 0} → (T → Type 0) → Db T E A → Type 0
Keeps I m = Ensures I m (λ _ t. I t)

-- What a statement writes has the property.
abbrev pub Written : {T A : Type 0} → (T → Type 0) → Result DbError (A × T) → Type 0
Written I (ok (_, t)) = I t
Written I (err _) = Unit

module _ {T E : Type 0} (I : T → Type 0) where
  pub Keeps-pure : {A : Type 0} (a : A) → Keeps {E = E} I (pure a)
  Keeps-pure a = ensures_pure a (λ t h. h)

  pub Keeps-raise : {A : Type 0} (e : E) → Keeps {A = A} I (raise e)
  Keeps-raise e = ensures_raise e (λ t h. h)

  pub Keeps-pure_if : {A : Type 0} (b : Bool) (a : A) (e : E) → Keeps I (pure_if b a e)
  Keeps-pure_if b a e = ensures_pure_if b a e (λ _ t h. h) (λ _ t h. h)

  Then-kept :
      {A : Type 0} (B : Type 0) (r : Result E A) (t : T)
      → I t
      → Then {B = B} (λ _ t. I t) (λ _ t. I t) r t
  Then-kept B (ok a) t h = h
  Then-kept B (err e) t h = h

  pub keeps_bind :
      {A B : Type 0} {P : T → Type 0} {m : Db T E A} {f : A → Db T E B}
      → Ensures P m (λ _ t. I t)
      → ((a : A) → Keeps I (f a))
      → Ensures P (m >>= f) (λ _ t. I t)
  keeps_bind {A} {B} {P} {m} h k =
      ensures_bind (λ _ t. I t)
        (record { holds = λ s p. Then-kept B (m s).0 (m s).1.tables (h.holds s p) }) k

  module _ (database : DbError → E) where
    pub Written-Meets :
        {A : Type 0} (t : T) (r : Result DbError (A × T))
        → I t
        → Written I r
        → Meets database (λ _ t. I t) t r
    Written-Meets t (ok (a, t')) h w = (w, λ _. h, λ _. w)
    Written-Meets t (err e) h w = λ _. h

    pub Keeps-statement :
        {A : Type 0} (f : T → Result DbError (A × T))
        → ((t : T) → I t → Written I (f t))
        → Keeps I (statement database f)
    Keeps-statement f h = ensures_statement database f (λ t p. Written-Meets t (f t) p (h t p))

    pub Keeps-query : {A : Type 0} (f : T → A) → Keeps I (query database f)
    Keeps-query f = ensures_query database f (λ t h. h) (λ e t h. h)

    Ends-kept :
        {A : Type 0} (before t : T) (r : Result E A)
        → I before
        → I t
        → Ends database (λ _ t. I t) before r t
    Ends-kept before t (ok a) h w = (w, λ _. h, λ _. w)
    Ends-kept before t (err e) h w = h

    pub Keeps-transaction :
        {A : Type 0} {body : Db T E A} → Keeps I body → Keeps I (transaction database body)
    Keeps-transaction {body} h =
        ensures_transaction database
          (λ t p. record {
            holds =
                λ s e. Ends-kept t (body s).1.tables (body s).0 p (h.holds s (subst I (sym e) p));
          })
          (λ e t p. p)
