-- ===== src/Payments/Repository/Progress.antt =====
-- How payments change: one is never lost and stays with its order, the outcome chosen for it is
-- never changed, and only a pending one changes its status, to that outcome.
use polyglot_ticketing_v.Base.{
  ℕ, ◌≡◌, refl, true, not, Option, none, some, arith, Bool-cases, Option-cases, is_some, inl, inr,
  Result, ok, err,
}
use polyglot_ticketing_v.Base.Int.{pos, ltb_ℤ}
use polyglot_ticketing_v.Base.Table.{lookup}
use polyglot_ticketing_v.Base.Db.{DbError, no_rows, statement}
use polyglot_ticketing_v.Base.Db.Keeps.{
  Keeps, Written, Keeps-pure, Keeps-raise, keeps_bind, Keeps-statement, Keeps-query,
  Keeps-transaction,
}
use polyglot_ticketing_v.Payments.Model.{
  Error, database, payment_not_pending, OrderStatus, unspecified, Status, Order, Payment,
  CreateInput, OrderRow, PaymentRow, PaymentsDb, is_pending, order_status_eq, expected_order_status,
}
use polyglot_ticketing_v.Payments.Repository.Follows.{
  Follows, Advances, Advances-refl, Advances-trans, orders-Advances, write-Advances,
  insert-Advances,
}
use polyglot_ticketing_v.Payments.Repository.{
  require, insert_snapshot, payment_of, insert_payment, create_rest, create, coalesce, leased,
  lease_found, claim_rest, claim_next_pending, is_due, settled, resolve_found, set_order_status,
  mark_resolved,
}

insert_payment-Advances :
    (id order_id : ℕ) (db : PaymentsDb) → Written (Advances db) (insert_payment id order_id db)
unfolding insert_payment
insert_payment-Advances id order_id db = elim (Bool-cases (is_some (payment_of order_id db))) [
  | inl paid ↦ rw paid (Advances-refl db)
  | inr unpaid ↦ elim (Bool-cases (is_some (lookup id db.payments))) [
    | inl taken ↦ rw (unpaid, taken) tt
    | inr fresh ↦ elim (Bool-cases (is_some (lookup order_id db.orders))) [
      | inr unknown ↦ rw (unpaid, fresh) (rw unknown tt)
      | inl known ↦ rw (unpaid, fresh) (rw known (insert-Advances id _ db fresh))
    ]
  ]
]

insert_snapshot-Advances :
    (order : Order) (db : PaymentsDb) → Written (Advances db) (insert_snapshot order db)
unfolding insert_snapshot
insert_snapshot-Advances order db = elim (Bool-cases (order_status_eq order.status unspecified)) [
  | inl invalid ↦ rw invalid tt
  | inr valid ↦ elim (Bool-cases (not (ltb_ℤ (pos 0) order.price))) [
    | inl free ↦ rw (valid, free) tt
    | inr priced ↦ elim (Bool-cases (is_some (lookup order.id db.orders))) [
      | inl known ↦ rw (valid, priced) (rw known (Advances-refl db))
      | inr new ↦ rw (valid, priced) (rw new (orders-Advances db db _ (Advances-refl db)))
    ]
  ]
]

-- The outcome that a lease leaves: the one chosen before, or now.
leased-Follows :
    (outcome : Status) (lease_until : ℕ) (row : PaymentRow)
    → Follows row (leased outcome lease_until row)
leased-Follows outcome lease_until row = elim (Option-cases row.mock_outcome) [
  | inl unchosen ↦ record { same_order = refl; same_outcome = inl unchosen; same_status = inl refl }
  | inr (chosen, was) ↦ record {
    same_order = refl;
    same_outcome = inr (rw was refl);
    same_status = inl refl;
  }
]

lease_found-Advances :
    (outcome : Status) (lease_until id : ℕ) (db : PaymentsDb)
    → Written (Advances db) (lease_found outcome lease_until id (lookup id db.payments) db)
unfolding lease_found
lease_found-Advances outcome lease_until id db = elim (Option-cases (lookup id db.payments)) [
  | inl absent ↦ rw absent (Advances-refl db)
  | inr (row, found) ↦ elim (Bool-cases (is_pending (coalesce row.mock_outcome outcome))) [
    | inl invalid ↦ rw found (rw invalid tt)
    | inr valid ↦ rw found (
        rw valid (
          write-Advances id row (leased outcome lease_until row) db found
            (leased-Follows outcome lease_until row)))
  ]
]

settled-Follows :
    (outcome : Status) (row : PaymentRow)
    → is_due outcome row ≡ true
    → Follows row (settled outcome row)
unfolding is_due
settled-Follows outcome row due = record {
  same_order = refl;
  same_outcome = inr refl;
  same_status = inr (ground arith);
}

resolve_found-Advances :
    (outcome : Status) (id : ℕ) (db : PaymentsDb)
    → Advances db (resolve_found outcome id (lookup id db.payments) db).1
unfolding resolve_found
resolve_found-Advances outcome id db = elim (Option-cases (lookup id db.payments)) [
  | inl absent ↦ rw absent (Advances-refl db)
  | inr (row, found) ↦ elim (Bool-cases (is_due outcome row)) [
    | inr fail ↦ rw found (rw fail (Advances-refl db))
    | inl due ↦ rw found (
        rw due
          (write-Advances id row (settled outcome row) db found (settled-Follows outcome row due)))
  ]
]

set_order_status-Advances :
    (status : OrderStatus) (id : ℕ) (found : Option OrderRow) (db : PaymentsDb)
    → Written (Advances db) (set_order_status status id found db)
unfolding set_order_status
set_order_status-Advances status id none db = Advances-refl db
set_order_status-Advances status id (some row) db =
    elim (Bool-cases (order_status_eq status unspecified)) [
      | inl invalid ↦ rw invalid tt
      | inr valid ↦ rw valid (orders-Advances db db _ (Advances-refl db))
    ]

module _ (before : PaymentsDb) where
  Written-Advances :
      {A : Type 0} (db : PaymentsDb) (r : Result DbError (A × PaymentsDb))
      → Advances before db
      → Written (Advances db) r
      → Written (Advances before) r
  Written-Advances db (ok (a, t)) h w = Advances-trans before db t h w
  Written-Advances db (err e) h w = tt

  -- A statement that advances what it finds.
  statement-Advances :
      {A : Type 0} (f : PaymentsDb → Result DbError (A × PaymentsDb))
      → ((db : PaymentsDb) → Written (Advances db) (f db))
      → Keeps (Advances before) (statement database f)
  statement-Advances f h =
      Keeps-statement (Advances before) database f λ db a. Written-Advances db (f db) a (h db)

  require-Advances :
      {A : Type 0} (e : Error) (found : Option A) → Keeps (Advances before) (require e found)
  unfolding require
  require-Advances e none = Keeps-raise (Advances before) e
  require-Advances e (some a) = Keeps-pure (Advances before) a

  create_rest-Advances :
      (order_id : ℕ) (payment : Option Payment)
      → Keeps (Advances before) (create_rest order_id payment)
  unfolding create_rest
  create_rest-Advances order_id (some payment) = Keeps-pure (Advances before) _
  create_rest-Advances order_id none =
      keeps_bind (Advances before) (Keeps-query (Advances before) database _) λ row.
        keeps_bind (Advances before) (require-Advances (database no_rows) row)
          λ existing. Keeps-pure (Advances before) _

  pub create-Advances :
      (random_id : ℕ) (input : CreateInput) (order : Order)
      → Keeps (Advances before) (create random_id input order)
  unfolding create
  create-Advances random_id input order = Keeps-transaction (Advances before) database (
      keeps_bind (Advances before)
        (statement-Advances (insert_snapshot order) (insert_snapshot-Advances order))
        λ _.
          keeps_bind (Advances before)
            (statement-Advances (insert_payment random_id input.order_id)
              (insert_payment-Advances random_id input.order_id))
            (create_rest-Advances input.order_id))

  claim_rest-Advances :
      (outcome : Status) (lease_until : ℕ) (claimed : Option (ℕ × PaymentRow))
      → Keeps (Advances before) (claim_rest outcome lease_until claimed)
  unfolding claim_rest
  claim_rest-Advances outcome lease_until none = Keeps-pure (Advances before) none
  claim_rest-Advances outcome lease_until (some (id, row)) =
      keeps_bind (Advances before)
        (statement-Advances (λ db. lease_found outcome lease_until id (lookup id db.payments) db)
          (lease_found-Advances outcome lease_until id))
        λ returned.
          keeps_bind (Advances before) (require-Advances (database no_rows) returned)
            λ mock_outcome. Keeps-pure (Advances before) _

  pub claim_next_pending-Advances :
      (now : ℕ) (outcome : Status) (lease_until : ℕ)
      → Keeps (Advances before) (claim_next_pending now outcome lease_until)
  unfolding claim_next_pending
  claim_next_pending-Advances now outcome lease_until =
      Keeps-transaction (Advances before) database (
        keeps_bind (Advances before) (Keeps-query (Advances before) database _)
          (claim_rest-Advances outcome lease_until))

  pub mark_resolved-Advances :
      (payment_id : ℕ) (outcome : Status)
      → Keeps (Advances before) (mark_resolved payment_id outcome)
  unfolding mark_resolved
  mark_resolved-Advances payment_id outcome = Keeps-transaction (Advances before) database (
      keeps_bind (Advances before)
        (statement-Advances
          (λ db. ok (resolve_found outcome payment_id (lookup payment_id db.payments) db))
          (resolve_found-Advances outcome payment_id))
        λ row. keeps_bind (Advances before) (require-Advances payment_not_pending row) λ order_id.
          statement-Advances
            (λ db.
              set_order_status (expected_order_status outcome) order_id (lookup order_id db.orders)
                db)
            λ db.
              set_order_status-Advances (expected_order_status outcome) order_id
                (lookup order_id db.orders) db)
