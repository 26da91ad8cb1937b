-- ===== src/Base/Db/Answers.antt =====
-- The program logic where one property of the tables is kept throughout, and the answer of a call
-- that goes well has one of its own.
use polyglot_ticketing_v.Base.Outcome.{Result, ok, err}
use polyglot_ticketing_v.Base.Db.{DbError, Db, pure, raise, ◌>>=◌, statement, query, transaction}
use polyglot_ticketing_v.Base.Db.Laws.{
  Ensures, ensures_pure, ensures_raise, Then, ensures_bind, Meets, ensures_statement, ensures_query,
  Ends, ensures_transaction,
}
use mathlib.Core.Path.{sym, subst}

-- The tables have the first property, and a value that is answered has the second.
abbrev pub Good : {T E A : Type 0} → (T → Type 0) → (A → T → Type 0) → Result E A → T → Type 0
Good I Q (ok a) t = I t × Q a t
Good I Q (err _) t = I t

abbrev pub Answers : {T E A : Type 0} → (T → Type 0) → Db T E A → (A → T → Type 0) → Type 0
Answers I m Q = Ensures I m (Good I Q)

-- What a statement writes has the first property, and its answer the second.
abbrev pub Gives :
    {T A : Type 0} → (T → Type 0) → (A → T → Type 0) → Result DbError (A × T) → Type 0
Gives I Q (ok (a, t)) = I t × Q a t
Gives I Q (err _) = Unit

module _ {T E : Type 0} (I : T → Type 0) where
  module _ {A : Type 0} (Q : A → T → Type 0) where
    pub answers_pure : (a : A) → Ensures (λ t. I t × Q a t) (pure {E = E} a) (Good I Q)
    answers_pure a = ensures_pure a (λ t h. h)

    pub answers_raise : (e : E) → Answers I (raise e) Q
    answers_raise e = ensures_raise e (λ t h. h)

    Then-Good :
        (B : Type 0) (R : B → T → Type 0) (r : Result E A) (t : T)
        → Good I Q r t
        → Then (λ a t. I t × Q a t) (Good {E = E} I R) r t
    Then-Good B R (ok a) t h = h
    Then-Good B R (err e) t h = h

    pub answers_bind :
        {B : Type 0} {P : T → Type 0} {R : B → T → Type 0} {m : Db T E A} {f : A → Db T E B}
        → Ensures P m (Good I Q)
        → ((a : A) → Ensures (λ t. I t × Q a t) (f a) (Good I R))
        → Ensures P (m >>= f) (Good I R)
    answers_bind {B} {P} {R} {m} h k =
        ensures_bind (λ a t. I t × Q a t)
          (record { holds = λ s p. Then-Good B R (m s).0 (m s).1.tables (h.holds s p) }) k

    module _ (database : DbError → E) where
      Gives-Meets :
          (t : T) (r : Result DbError (A × T)) → I t → Gives I Q r → Meets database (Good I Q) t r
      Gives-Meets t (ok (a, t')) h w = (w, λ _. h, λ _. w.0)
      Gives-Meets t (err e) h w = λ _. h

      pub answers_statement :
          {P : T → Type 0} (f : T → Result DbError (A × T))
          → ((t : T) → P t → I t)
          → ((t : T) → P t → Gives I Q (f t))
          → Ensures P (statement database f) (Good I Q)
      answers_statement f keep h =
          ensures_statement database f (λ t p. Gives-Meets t (f t) (keep t p) (h t p))

      pub answers_query :
          {P : T → Type 0} (f : T → A)
          → ((t : T) → P t → I t)
          → ((t : T) → P t → Q (f t) t)
          → Ensures P (query database f) (Good I Q)
      answers_query f keep h =
          ensures_query database f (λ t p. (keep t p, h t p)) (λ e t p. keep t p)

      Ends-Good :
          (before t : T) (r : Result E A)
          → I before
          → Good I Q r t
          → Ends database (Good I Q) before r t
      Ends-Good before t (ok a) h w = (w, λ _. h, λ _. w.0)
      Ends-Good before t (err e) h w = h

      pub answers_transaction :
          {body : Db T E A} → Answers I body Q → Answers I (transaction database body) Q
      answers_transaction {body} h =
          ensures_transaction database
            (λ t p. record {
              holds =
                  λ s e. Ends-Good t (body s).1.tables (body s).0 p (h.holds s (subst I (sym e) p));
            })
            (λ e t p. p)
