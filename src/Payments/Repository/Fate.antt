-- ===== src/Payments/Repository/Fate.antt =====
-- A payment that waits to be settled, through a settlement of any payment.
use mathlib.Core.Path.{subst}
use polyglot_ticketing_v.Base.{
  ℕ, ◌≡◌, ◌⊎◌, refl, sym, Option, none, some, arith, ◌==◌, Bool-cases, Option-cases, inl, inr, ok,
}
use polyglot_ticketing_v.Base.Table.{lookup, write, lookup-write}
use polyglot_ticketing_v.Base.Db.Keeps.{
  Keeps, Written, Keeps-pure, Keeps-raise, keeps_bind, Keeps-statement, Keeps-transaction,
}
use polyglot_ticketing_v.Payments.Model.{
  Error, database, payment_not_pending, OrderStatus, unspecified, Status, pending, OrderRow,
  PaymentRow, PaymentsDb, order_status_eq, expected_order_status,
}
use polyglot_ticketing_v.Payments.Repository.{
  require, is_due, settled, resolve_found, set_order_status, mark_resolved,
}

Keeps-require :
    (I : PaymentsDb → Type 0) {A : Type 0} (e : Error) (found : Option A)
    → Keeps I (require e found)
unfolding require
Keeps-require I e none = Keeps-raise I e
Keeps-require I e (some a) = Keeps-pure I a

-- One payment.
module _ (id : ℕ) where
  -- The row waits, or it is the one settled and has the outcome.
  abbrev pub Fate : ℕ → Status → Option PaymentRow → Type 0
  Fate k outcome none = ⊥
  Fate k outcome (some row) = (row.status ≡ pending) ⊎ ((k ≡ id) × (row.status ≡ outcome))

  resolve_found-Fate :
      (k : ℕ) (outcome : Status) (t : PaymentsDb)
      → Fate k outcome (lookup id t.payments)
      → Fate k outcome (lookup id (resolve_found outcome k (lookup k t.payments) t).1.payments)
  unfolding resolve_found
  resolve_found-Fate k outcome t f = elim (Option-cases (lookup k t.payments)) [
    | inl absent ↦ rw absent f
    | inr (row, found) ↦ elim (Bool-cases (is_due outcome row)) [
      | inr fail ↦ rw found (rw fail f)
      | inl due ↦
          let row' : PaymentRow = settled outcome row in
          elim (Bool-cases (id == k)) [
            | inl same ↦
                let at : lookup id (write k row' t.payments) ≡ some row' =
                  ground (arith, lookup-write id k row' t.payments) in
                let one : k ≡ id = ground arith in
                rw found (rw due (subst (Fate k outcome) (sym at) (inr (one, refl))))
            | inr other ↦
                let at : lookup id (write k row' t.payments) ≡ lookup id t.payments =
                  ground (arith, lookup-write id k row' t.payments) in
                rw found (rw due (subst (Fate k outcome) (sym at) f))
          ]
    ]
  ]

  set_order_status-Fate :
      (k : ℕ) (outcome : Status) (status : OrderStatus) (found : Option OrderRow) (order_id : ℕ)
      (t : PaymentsDb)
      → Fate k outcome (lookup id t.payments)
      → Written
          (λ u. Fate k outcome (lookup id u.payments))
          (set_order_status status order_id found t)
  unfolding set_order_status
  set_order_status-Fate k outcome status none order_id t f = f
  set_order_status-Fate k outcome status (some row) order_id t f =
      elim (Bool-cases (order_status_eq status unspecified)) [
        | inl invalid ↦ rw invalid tt
        | inr valid ↦ rw valid f
      ]

  pub mark_resolved-Fate :
      (k : ℕ) (outcome : Status)
      → Keeps (λ t. Fate k outcome (lookup id t.payments)) (mark_resolved k outcome)
  unfolding mark_resolved
  mark_resolved-Fate k outcome =
      let I : PaymentsDb → Type 0 = λ t. Fate k outcome (lookup id t.payments) in
      Keeps-transaction I database (
        keeps_bind I
          (Keeps-statement I database (λ t. ok (resolve_found outcome k (lookup k t.payments) t))
            (resolve_found-Fate k outcome))
          λ row. keeps_bind I (Keeps-require I payment_not_pending row) λ order_id.
            Keeps-statement I database
              (λ t.
                set_order_status (expected_order_status outcome) order_id (lookup order_id t.orders)
                  t)
              λ t f.
                set_order_status-Fate k outcome (expected_order_status outcome)
                  (lookup order_id t.orders) order_id t f)
