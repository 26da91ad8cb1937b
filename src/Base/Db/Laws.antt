-- ===== src/Base/Db/Laws.antt =====
-- What a computation on the tables ensures, whatever goes wrong on the way: a program logic with
-- a rule for each way to build one. A postcondition speaks of the outcome and of the tables.
use mathlib.Core.Path.{◌≡◌, refl}
use mathlib.Core.Bool.{Bool, true, false}
use polyglot_ticketing_v.Base.Outcome.{Result, ok, err}
use polyglot_ticketing_v.Base.Db.{
  DbError, Fault, healthy, rejected, lost, Session, Db, next_fault, pure, raise, pure_if, proceed,
  ◌>>=◌, perform, statement, query, finish, transaction,
}

pub record Ensures {T E A : Type 0} (P : T → Type 0) (m : Db T E A) (Q : Result E A → T → Type 0)
    : Type 0 where
  pub holds : (s : Session T) → P s.tables → Q (m s).0 (m s).1.tables

module _ {T E A : Type 0} {P : T → Type 0} {Q : Result E A → T → Type 0} where
  pub ensures_pure : (a : A) → ((t : T) → P t → Q (ok a) t) → Ensures P (pure a) Q
  ensures_pure a h = record { holds = λ s p. h s.tables p }

  pub ensures_raise : (e : E) → ((t : T) → P t → Q (err e) t) → Ensures P (raise e) Q
  ensures_raise e h = record { holds = λ s p. h s.tables p }

  pub ensures_pure_if :
      (b : Bool) (a : A) (e : E)
      → (b ≡ true → (t : T) → P t → Q (ok a) t)
      → (b ≡ false → (t : T) → P t → Q (err e) t)
      → Ensures P (pure_if b a e) Q
  unfolding pure_if
  ensures_pure_if true a e h k = record { holds = λ s p. h refl s.tables p }
  ensures_pure_if false a e h k = record { holds = λ s p. k refl s.tables p }

  -- A fact that the precondition states is at hand throughout.
  pub ensures_given : {C : Type 0} {m : Db T E A} → (C → Ensures P m Q) → Ensures (λ t. P t × C) m Q
  ensures_given h = record { holds = λ s p. (h p.1).holds s p.0 }

-- What the first of two computations has to ensure: the second's precondition, or the end.
abbrev pub Then :
    {T E A B : Type 0} → (A → T → Type 0) → (Result E B → T → Type 0) → Result E A → T → Type 0
Then M Q (ok a) t = M a t
Then M Q (err e) t = Q (err e) t

module _ {T E A B : Type 0} (M : A → T → Type 0) {Q : Result E B → T → Type 0} where
  proceed-Then :
      (f : A → Db T E B)
      → ((a : A) → Ensures (M a) (f a) Q)
      → (r : Result E A) (s : Session T) → Then M Q r s.tables
      → Q (proceed f r s).0 (proceed f r s).1.tables
  proceed-Then f k (ok a) s h = (k a).holds s h
  proceed-Then f k (err e) s h = h

  pub ensures_bind :
      {P : T → Type 0} {m : Db T E A} {f : A → Db T E B}
      → Ensures P m (Then M Q)
      → ((a : A) → Ensures (M a) (f a) Q)
      → Ensures P (m >>= f) Q
  ensures_bind {m} {f} h k = record {
    holds = λ s p. proceed-Then f k (m s).0 (m s).1 (h.holds s p);
  }

module _ {T E A : Type 0} (database : DbError → E) where
  -- What a statement must meet: its answer with what it wrote; an error with the tables as they
  -- were or as it left them.
  abbrev pub Meets : (Result E A → T → Type 0) → T → Result DbError (A × T) → Type 0
  Meets Q t (ok (a, t')) =
      Q (ok a) t'
      × ((e : DbError) → Q (err (database e)) t)
      × ((e : DbError) → Q (err (database e)) t')
  Meets Q t (err _) = (e : DbError) → Q (err (database e)) t

  perform-Meets :
      (Q : Result E A → T → Type 0) (f : Fault) (t : T) (r : Result DbError (A × T))
      → Meets Q t r
      → Q (perform database f t r).0 (perform database f t r).1
  unfolding perform
  perform-Meets Q healthy t (ok (a, t')) h = h.0
  perform-Meets Q healthy t (err e) h = h e
  perform-Meets Q (rejected e) t (ok (a, t')) h = h.1 e
  perform-Meets Q (rejected e) t (err _) h = h e
  perform-Meets Q (lost e) t (ok (a, t')) h = h.2 e
  perform-Meets Q (lost e) t (err _) h = h e

  module _ {P : T → Type 0} {Q : Result E A → T → Type 0} where
    pub ensures_statement :
        (f : T → Result DbError (A × T))
        → ((t : T) → P t → Meets Q t (f t))
        → Ensures P (statement database f) Q
    unfolding statement
    ensures_statement f h = record {
      holds = λ s p. perform-Meets Q (next_fault s.faults) s.tables (f s.tables) (h s.tables p);
    }

    pub ensures_query :
        (f : T → A)
        → ((t : T) → P t → Q (ok (f t)) t)
        → ((e : DbError) (t : T) → P t → Q (err (database e)) t)
        → Ensures P (query database f) Q
    unfolding query
    ensures_query f h k =
        ensures_statement (λ t. ok (f t, t)) (λ t p. (h t p, λ e. k e t p, λ e. k e t p))

module _ {T E A : Type 0} (database : DbError → E) where
  -- What the body of a transaction must meet, begun at `before`: a commit that goes well, is
  -- refused, or is made with its answer lost; or the rollback behind an error.
  abbrev pub Ends : (Result E A → T → Type 0) → T → Result E A → T → Type 0
  Ends Q before (ok a) t = Meets database Q before (ok (a, t))
  Ends Q before (err e) t = Q (err e) before

  finish-Ends :
      (Q : Result E A → T → Type 0) (before : T) (r : Result E A) (s : Session T)
      → Ends Q before r s.tables
      → Q (finish database before (r, s)).0 (finish database before (r, s)).1.tables
  unfolding finish
  finish-Ends Q before (ok a) s h =
      perform-Meets database Q (next_fault s.faults) before (ok (a, s.tables)) h
  finish-Ends Q before (err e) s h = h

  pub ensures_transaction :
      {P : T → Type 0} {Q : Result E A → T → Type 0} {body : Db T E A}
      → ((t : T) → P t → Ensures (λ u. u ≡ t) body (Ends Q t))
      → ((e : DbError) (t : T) → P t → Q (err (database e)) t)
      → Ensures P (transaction database body) Q
  unfolding transaction
  ensures_transaction {P} {Q} {body} h k =
      ensures_bind (λ _ t. P t) (ensures_query database (λ _. tt {0}) (λ t p. p) k)
        λ _. record {
          holds = λ s p. finish-Ends Q s.tables (body s).0 (body s).1 ((h s.tables p).holds s refl);
        }
