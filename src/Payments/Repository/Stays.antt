-- ===== src/Payments/Repository/Stays.antt =====
-- A payment that is opened changes no payment that is there.
use polyglot_ticketing_v.Base.{
  ℕ, ◌≡◌, Option, none, some, arith, not, is_some, Bool-cases, inl, inr,
}
use polyglot_ticketing_v.Base.Int.{pos, ltb_ℤ}
use polyglot_ticketing_v.Base.Table.{lookup, lookup-write}
use polyglot_ticketing_v.Base.Db.{no_rows}
use polyglot_ticketing_v.Base.Db.Keeps.{
  Keeps, Written, Keeps-pure, Keeps-raise, keeps_bind, Keeps-statement, Keeps-query,
  Keeps-transaction,
}
use polyglot_ticketing_v.Payments.Model.{
  Error, database, unspecified, Order, Payment, CreateInput, PaymentRow, PaymentsDb,
  order_status_eq,
}
use polyglot_ticketing_v.Payments.Repository.{
  require, new_payment, insert_snapshot, payment_of, insert_payment, create_rest, create,
}

module _ (id : ℕ) (row : PaymentRow) where
  -- The payment has this row.
  abbrev Stays : PaymentsDb → Type 0
  Stays db = lookup id db.payments ≡ some row

  insert_snapshot-Stays :
      (order : Order) (db : PaymentsDb) → Stays db → Written Stays (insert_snapshot order db)
  unfolding insert_snapshot
  insert_snapshot-Stays order db h = elim (Bool-cases (order_status_eq order.status unspecified)) [
    | inl invalid ↦ rw invalid tt
    | inr valid ↦ elim (Bool-cases (not (ltb_ℤ (pos 0) order.price))) [
      | inl free ↦ rw (valid, free) tt
      | inr priced ↦ elim (Bool-cases (is_some (lookup order.id db.orders))) [
        | inl known ↦ rw (valid, priced) (rw known h)
        | inr new ↦ rw (valid, priced) (rw new h)
      ]
    ]
  ]

  insert_payment-Stays :
      (new order_id : ℕ) (db : PaymentsDb)
      → Stays db
      → Written Stays (insert_payment new order_id db)
  unfolding insert_payment
  insert_payment-Stays new order_id db h = elim (Bool-cases (is_some (payment_of order_id db))) [
    | inl paid ↦ rw paid h
    | inr unpaid ↦ elim (Bool-cases (is_some (lookup new db.payments))) [
      | inl taken ↦ rw (unpaid, taken) tt
      | inr fresh ↦ elim (Bool-cases (is_some (lookup order_id db.orders))) [
        | inr unknown ↦ rw (unpaid, fresh) (rw unknown tt)
        | inl known ↦
            rw (unpaid, fresh)
              (rw known
                (ground (arith, lookup-write id new (new_payment order_id) db.payments, h, fresh)))
      ]
    ]
  ]

  require-Stays : {A : Type 0} (e : Error) (found : Option A) → Keeps Stays (require e found)
  unfolding require
  require-Stays e none = Keeps-raise Stays e
  require-Stays e (some a) = Keeps-pure Stays a

  create_rest-Stays :
      (order_id : ℕ) (payment : Option Payment) → Keeps Stays (create_rest order_id payment)
  unfolding create_rest
  create_rest-Stays order_id (some payment) = Keeps-pure Stays _
  create_rest-Stays order_id none = keeps_bind Stays (Keeps-query Stays database _) λ found.
      keeps_bind Stays (require-Stays (database no_rows) found) (λ existing. Keeps-pure Stays _)

  pub create-Stays :
      (random_id : ℕ) (input : CreateInput) (order : Order)
      → Keeps Stays (create random_id input order)
  unfolding create
  create-Stays random_id input order = Keeps-transaction Stays database (
      keeps_bind Stays
        (Keeps-statement Stays database (insert_snapshot order) (insert_snapshot-Stays order))
        λ _.
          keeps_bind Stays
            (Keeps-statement Stays database (insert_payment random_id input.order_id)
              (insert_payment-Stays random_id input.order_id))
            (create_rest-Stays input.order_id))
