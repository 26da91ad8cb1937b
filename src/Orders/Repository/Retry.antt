-- ===== src/Orders/Repository/Retry.antt =====
-- Replays of the Orders operations: cancellation, expiry, the start and the resolution of a
-- payment may be tried again after an attempt whose answer was lost; a reservation may not.
use polyglot_ticketing_v.Base.{
  ℕ, ◌≡◌, refl, Bool, true, false, Option, none, some, arith, Bool-cases, Option-cases, inl, inr,
  Text, text_eq, ◌&&◌, ok,
}
use polyglot_ticketing_v.Base.Table.{lookup, write, lookup-write}
use polyglot_ticketing_v.Base.Db.{Db, ◌>>=◌, statement, query, pure_if}
use polyglot_ticketing_v.Base.Db.Keeps.{Keeps-raise}
use polyglot_ticketing_v.Base.Db.Retry.{calm, RetrySafe, write-RetrySafe}
use polyglot_ticketing_v.Orders.Model.{
  Error, database, Status, canceled, complete, Order, PaymentOutcome, failed, succeeded,
  unspecified, OrderRow, OrdersDb, is_created,
}
use polyglot_ticketing_v.Orders.Repository.{
  scan_order, update_status, find_order, expire_created_order, is_overdue, expire_rest, has_outcome,
  resolve_rest, cancel_rest, resolve_payment, cancel_by_id_and_user,
}
use polyglot_ticketing_v.Orders.Repository.Reads.{
  expire_rest-Keeps, resolve_rest-Keeps, cancel_rest-Keeps,
}

lookup-write_self :
    (id : ℕ) (row : OrderRow) (db : OrdersDb) → lookup id (write id row db.orders) ≡ some row
lookup-write_self id row db = ground (arith, lookup-write id id row db.orders)

-- The three ways that an update goes.
module _ (id : ℕ) (test : OrderRow → Bool) (target : Status) (db : OrdersDb) where
  update_status-absent : lookup id db.orders ≡ none → update_status id test target db ≡ (none, db)
  unfolding update_status
  update_status-absent absent = rw absent

  update_status-fail :
      (row : OrderRow)
      → lookup id db.orders ≡ some row
      → test row ≡ false
      → update_status id test target db ≡ (none, db)
  unfolding update_status
  update_status-fail row found fail = rw found (rw fail)

  abbrev updated : OrderRow → OrdersDb
  updated row = record db { orders = write id (record row { status = target }) db.orders }

  update_status-pass :
      (row : OrderRow)
      → lookup id db.orders ≡ some row
      → test row ≡ true
      → update_status id test target db
        ≡ (some (scan_order id (record row { status = target })), updated row)
  unfolding update_status
  update_status-pass row found pass = rw found (rw pass)

-- An update that rules itself out, followed by reads that answer for the updated row what the
-- update would have answered, may be made again.
again :
    {A : Type 0} (id : ℕ) (test : OrderRow → Bool) (target : Status)
    (rest : Option Order → Db OrdersDb Error A)
    → ((row : OrderRow) → test (record row { status = target }) ≡ false)
    → ((row : OrderRow) (db : OrdersDb)
        → test row ≡ true
        → lookup id db.orders ≡ some (record row { status = target })
        → rest none (calm db)
          ≡ rest (some (scan_order id (record row { status = target }))) (calm db))
    → (db : OrdersDb)
    → (statement database (λ u. ok (update_status id test target u)) >>= rest)
        (calm (update_status id test target db).1)
      ≡ (statement database (λ u. ok (update_status id test target u)) >>= rest) (calm db)
unfolding statement
again id test target rest once same db = elim (Option-cases (lookup id db.orders)) [
  | inl absent ↦
      let unchanged : update_status id test target db ≡ (none, db) =
        update_status-absent id test target db absent in
      rw (unchanged, unchanged)
  | inr (row, found) ↦ elim (Bool-cases (test row)) [
    | inr fail ↦
        let unchanged : update_status id test target db ≡ (none, db) =
          update_status-fail id test target db row found fail in
        rw (unchanged, unchanged)
    | inl pass ↦
        let row' : OrderRow = record row { status = target } in
        let db' : OrdersDb = updated id test target db row in
        let at : lookup id db'.orders ≡ some row' = lookup-write_self id row' db in
        rw (update_status-pass id test target db row found pass)
          (rw (update_status-fail id test target db' row' at (once row)) (same row db' pass at))
  ]
]

cancel_again :
    (id : ℕ) (user : Text) (row : OrderRow) (db : OrdersDb)
    → text_eq row.user_id user && is_created row.status ≡ true
    → lookup id db.orders ≡ some (record row { status = canceled })
    → cancel_rest id user none (calm db)
      ≡ cancel_rest id user (some (scan_order id (record row { status = canceled }))) (calm db)
unfolding cancel_rest find_order query pure_if
cancel_again id user row db pass at =
    let owner : text_eq row.user_id user ≡ true = ground arith in rw at (rw owner)

-- A cancellation whose attempts failed, whatever they did, may be tried again: the attempt that
-- goes well answers and does what a single one would have.
pub cancel_by_id_and_user-RetrySafe :
    (id : ℕ) (user : Text) → RetrySafe (cancel_by_id_and_user id user)
unfolding cancel_by_id_and_user
cancel_by_id_and_user-RetrySafe id user =
    write-RetrySafe database (update_status id _ canceled) (cancel_rest id user)
      (λ I order. cancel_rest-Keeps I id user order)
      (again id _ canceled (cancel_rest id user) (λ row. ground arith) (cancel_again id user))

expire_again :
    (now id : ℕ) (row : OrderRow) (db : OrdersDb)
    → is_overdue now row ≡ true
    → lookup id db.orders ≡ some (record row { status = canceled })
    → expire_rest id none (calm db)
      ≡ expire_rest id (some (scan_order id (record row { status = canceled }))) (calm db)
unfolding expire_rest find_order query
expire_again now id row db pass at = rw at

-- So too an expiry that is tried again with the same NOW().
pub expire_created_order-RetrySafe : (now id : ℕ) → RetrySafe (expire_created_order now id)
unfolding expire_created_order is_overdue
expire_created_order-RetrySafe now id =
    write-RetrySafe database (update_status id (is_overdue now) canceled) (expire_rest id)
      (λ I order. expire_rest-Keeps I id order)
      (again id (is_overdue now) canceled (expire_rest id) (λ row. ground arith)
        (expire_again now id))

resolve_again :
    (id : ℕ) (outcome : PaymentOutcome) (target : Status) (release : Bool) (row : OrderRow)
    (db : OrdersDb)
    → has_outcome outcome target ≡ true
    → lookup id db.orders ≡ some (record row { status = target })
    → resolve_rest id outcome release none (calm db)
      ≡ resolve_rest id outcome release
          (some (scan_order id (record row { status = target })))
          (calm db)
unfolding resolve_rest find_order query pure_if
resolve_again id outcome target release row db reached at = rw at (rw reached)

-- So too the resolution of a payment, by whichever outcome.
pub resolve_payment-RetrySafe :
    (id : ℕ) (outcome : PaymentOutcome) → RetrySafe (resolve_payment id outcome)
unfolding resolve_payment
resolve_payment-RetrySafe id failed =
    write-RetrySafe database (update_status id _ canceled) (resolve_rest id failed true)
      (λ I order. resolve_rest-Keeps I id failed true order)
      (again id _ canceled (resolve_rest id failed true) (λ row. refl)
        λ row db _ at. resolve_again id failed canceled true row db refl at)
resolve_payment-RetrySafe id succeeded =
    write-RetrySafe database (update_status id _ complete) (resolve_rest id succeeded false)
      (λ I order. resolve_rest-Keeps I id succeeded false order)
      (again id _ complete (resolve_rest id succeeded false) (λ row. refl)
        λ row db _ at. resolve_again id succeeded complete false row db refl at)
resolve_payment-RetrySafe id unspecified = λ t. Keeps-raise _ _
