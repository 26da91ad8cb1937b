-- ===== src/Base/Db/Steady.antt =====
-- A computation that succeeds does what it would have done had nothing been able to go wrong.
use mathlib.Core.Path.{◌≡◌, refl, ◌∙◌, subst}
use mathlib.Core.Bool.{Bool, true, false}
use native.Mathlib.Omega.{arith}
use polyglot_ticketing_v.Base.Outcome.{Result, ok, err}
use polyglot_ticketing_v.Base.Db.{
  DbError, Fault, healthy, rejected, lost, next_fault, Session, Db, pure, raise, pure_if, proceed,
  ◌>>=◌, perform, statement, query, transaction,
}
use polyglot_ticketing_v.Base.Db.Laws.{Ends, ensures_transaction}
use polyglot_ticketing_v.Base.Db.Retry.{calm, RetrySafe}

pub record Steady {T E A : Type 0} (m : Db T E A) : Type 0 where
  pub steady :
      (s : Session T) (a : A) → (m s).0 ≡ ok a → m (calm s.tables) ≡ (ok a, calm (m s).1.tables)

module _ {T E A : Type 0} where
  pub Steady-pure : (a : A) → Steady {T = T} {E = E} (pure a)
  Steady-pure a = record { steady = λ s b h. ground arith }

  pub Steady-raise : (e : E) → Steady {T = T} {A = A} (raise e)
  Steady-raise e = record { steady = λ s b h. cc }

  pub Steady-pure_if : (b : Bool) (a : A) (e : E) → Steady {T = T} (pure_if b a e)
  unfolding pure_if
  Steady-pure_if true a e = record { steady = λ s c h. ground arith }
  Steady-pure_if false a e = record { steady = λ s c h. cc }

  perform-steady :
      (database : DbError → E) (f : Fault) (t : T) (r : Result DbError (A × T)) (a : A)
      → (perform database f t r).0 ≡ ok a
      → perform database healthy t r ≡ (ok a, (perform database f t r).1)
  unfolding perform
  perform-steady database healthy t (ok (b, u)) a h = ground arith
  perform-steady database healthy t (err e) a h = cc
  perform-steady database (rejected e) t r a h = cc
  perform-steady database (lost e) t (ok (b, u)) a h = cc
  perform-steady database (lost e) t (err _) a h = cc

  pub Steady-statement :
      (database : DbError → E) (f : T → Result DbError (A × T)) → Steady (statement database f)
  unfolding statement
  Steady-statement database f = record {
    steady = λ s a h.
        let p = perform-steady database (next_fault s.faults) s.tables (f s.tables) a h in rw p;
  }

  pub Steady-query : (database : DbError → E) (f : T → A) → Steady (query database f)
  unfolding query
  Steady-query database f = Steady-statement database (λ t. ok (f t, t))

module _ {T E A B : Type 0} (m : Db T E A) (f : A → Db T E B) where
  proceed-Steady :
      (s u : Session T) (r : Result E A) (b : B)
      → ((a : A) → r ≡ ok a → m (calm s.tables) ≡ (ok a, calm u.tables))
      → ((a : A) → Steady (f a))
      → (proceed f r u).0 ≡ ok b
      → (m >>= f) (calm s.tables) ≡ (ok b, calm (proceed f r u).1.tables)
  proceed-Steady s u (ok a) b h k e = rw (h a refl) ((k a).steady u b e)
  proceed-Steady s u (err _) b h k e = cc

pub Steady-bind :
    {T E A B : Type 0} {m : Db T E A} {f : A → Db T E B}
    → Steady m
    → ((a : A) → Steady (f a))
    → Steady (m >>= f)
Steady-bind {m} {f} h k = record {
  steady = λ s b e. proceed-Steady m f s (m s).1 (m s).0 b (h.steady s) k e;
}

-- A transaction whose commit, once made, is not made again.
module _ {T E A : Type 0} (database : DbError → E) (body : Db T E A) (steady : Steady body)
    (again : (t u : T) (a : A)
      → body (calm t) ≡ (ok a, calm u)
      → transaction database body (calm u) ≡ transaction database body (calm t)) where
  Ends-again :
      (t before : T) (s : Session T) (r : Result E A)
      → transaction database body (calm before) ≡ transaction database body (calm t)
      → ((a : A) → r ≡ ok a → body (calm before) ≡ (ok a, calm s.tables))
      → Ends database
          (λ _ u. transaction database body (calm u) ≡ transaction database body (calm t))
          before
          r
          s.tables
  Ends-again t before s (ok a) h k =
      let e : transaction database body (calm s.tables) ≡ transaction database body (calm t) =
        again before s.tables a (k a refl) ∙ h in
      (e, λ _. h, λ _. e)
  Ends-again t before s (err _) h k = h

  pub transaction-RetrySafe : RetrySafe (transaction database body)
  transaction-RetrySafe t =
      ensures_transaction database
        (λ before h. record {
          holds = λ s e. Ends-again t before (body s).1 (body s).0 h λ a r.
              subst (λ x. body (calm x) ≡ (ok a, calm (body s).1.tables)) e (steady.steady s a r);
        })
        (λ e before h. h)
