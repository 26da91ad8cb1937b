-- ===== src/Orders/Repository/Transitions.antt =====
-- How orders change: an order is never lost, keeps its owner, ticket and deadline, and its status
-- only moves on from Created through AwaitingPayment to one of the two final ones.
use polyglot_ticketing_v.Base.{
  ℕ, ◌≡◌, refl, Bool, true, false, Option, none, some, arith, Bool-cases, Option-cases, is_some,
  inl, inr, Text, Result, ok, err,
}
use polyglot_ticketing_v.Base.Table.{lookup}
use polyglot_ticketing_v.Base.Db.{DbError}
use polyglot_ticketing_v.Base.Db.Keeps.{
  Keeps, Written, Keeps-pure, Keeps-pure_if, Keeps-raise, keeps_bind, Keeps-statement, Keeps-query,
  Keeps-transaction,
}
use polyglot_ticketing_v.Orders.Model.{
  database, not_found, Status, canceled, complete, awaiting_payment, Order, PaymentOutcome, failed,
  succeeded, unspecified, TicketReservationInput, OrderRow, OrdersDb,
}
use polyglot_ticketing_v.Orders.Repository.{
  insert_row, order_id_or, reserve_with, reserve_ticket, update_status, update_order,
  expire_created_order, is_overdue, may_start, start_row, start_payment, resolve_payment,
  cancel_by_id_and_user,
}
use polyglot_ticketing_v.Orders.Repository.Reads.{
  Keeps-require, expire_rest-Keeps, start_rest-Keeps, resolve_rest-Keeps, cancel_rest-Keeps,
}
use polyglot_ticketing_v.Orders.Repository.Evolves.{
  IsLater, Evolves, Evolves-refl, Evolves-trans, write-Evolves, insert-Evolves,
}

update_status-Evolves :
    (id : ℕ) (test : OrderRow → Bool) (target : Status) (db : OrdersDb)
    → ((row : OrderRow) → test row ≡ true → IsLater row.status target)
    → Evolves db (update_status id test target db).1
unfolding update_status
update_status-Evolves id test target db later = elim (Option-cases (lookup id db.orders)) [
  | inl absent ↦ rw absent (Evolves-refl db)
  | inr (row, found) ↦ elim (Bool-cases (test row)) [
    | inr fail ↦ rw found (rw fail (Evolves-refl db))
    | inl pass ↦ rw found (
        rw pass (
          write-Evolves id row (record row { status = target }) db found
            (record {
              same_deadline = refl;
              same_user = refl;
              same_ticket = refl;
              later = later row pass;
            })))
  ]
]

may_start-IsLater :
    (user : Text) (db : OrdersDb) (row : OrderRow)
    → may_start user db row ≡ true
    → IsLater row.status awaiting_payment
unfolding may_start
may_start-IsLater user db row h = ground arith

start_row-Evolves : (id : ℕ) (user : Text) (db : OrdersDb) → Evolves db (start_row id user db).1
unfolding start_row
start_row-Evolves id user db = elim (Option-cases (lookup id db.orders)) [
  | inl absent ↦ rw absent (Evolves-refl db)
  | inr (row, found) ↦ elim (Bool-cases (may_start user db row)) [
    | inr fail ↦ rw found (rw fail (Evolves-refl db))
    | inl pass ↦ rw found (
        rw pass (
          write-Evolves id row (record row { status = awaiting_payment }) db found
            (record {
              same_deadline = refl;
              same_user = refl;
              same_ticket = refl;
              later = may_start-IsLater user db row pass;
            })))
  ]
]

insert_row-Evolves :
    (id : ℕ) (input : TicketReservationInput) (db : OrdersDb)
    → Written (Evolves db) (insert_row id input db)
unfolding insert_row
insert_row-Evolves id input db = elim (Bool-cases (is_some (lookup id db.orders))) [
  | inl taken ↦ rw taken tt
  | inr fresh ↦ elim (Bool-cases (is_some (lookup input.ticket_id db.tickets))) [
    | inr unknown ↦ rw (fresh, unknown) tt
    | inl known ↦ rw (fresh, known) (insert-Evolves id _ db fresh)
  ]
]

module _ (before : OrdersDb) where
  update_order-Evolves :
      (id : ℕ) (test : OrderRow → Bool) (target : Status)
      → ((row : OrderRow) → test row ≡ true → IsLater row.status target)
      → Keeps (Evolves before) (update_order id test target)
  unfolding update_order
  update_order-Evolves id test target later =
      Keeps-statement (Evolves before) database (λ db. ok (update_status id test target db))
        λ db h. Evolves-trans before db _ h (update_status-Evolves id test target db later)

  Written-Evolves :
      {A : Type 0} (db : OrdersDb) (r : Result DbError (A × OrdersDb))
      → Evolves before db
      → Written (Evolves db) r
      → Written (Evolves before) r
  Written-Evolves db (ok (a, t)) h w = Evolves-trans before db t h w
  Written-Evolves db (err e) h w = tt

  reserve_with-Evolves :
      (random_id : ℕ) (input : TicketReservationInput) (existing : Option Order)
      → Keeps (Evolves before) (reserve_with random_id input existing)
  unfolding reserve_with
  reserve_with-Evolves random_id input (some existing) = Keeps-pure_if (Evolves before) _ _ _
  reserve_with-Evolves random_id input none =
      let id : ℕ = order_id_or random_id input.order_id in
      keeps_bind (Evolves before)
        (Keeps-statement (Evolves before) database (insert_row id input)
          λ db h. Written-Evolves db (insert_row id input db) h (insert_row-Evolves id input db))
        λ order. Keeps-pure (Evolves before) _

  pub reserve_ticket-Evolves :
      (random_id : ℕ) (input : TicketReservationInput)
      → Keeps (Evolves before) (reserve_ticket random_id input)
  unfolding reserve_ticket
  reserve_ticket-Evolves random_id input = Keeps-transaction (Evolves before) database (
      keeps_bind (Evolves before) (Keeps-query (Evolves before) database _) λ row.
        keeps_bind (Evolves before) (Keeps-require (Evolves before) not_found row) λ _.
          keeps_bind (Evolves before) (Keeps-query (Evolves before) database _)
            (reserve_with-Evolves random_id input))

  pub expire_created_order-Evolves :
      (now order_id : ℕ) → Keeps (Evolves before) (expire_created_order now order_id)
  unfolding expire_created_order is_overdue
  expire_created_order-Evolves now order_id =
      keeps_bind (Evolves before)
        (update_order-Evolves order_id (is_overdue now) canceled (λ row h. ground arith))
        (expire_rest-Keeps (Evolves before) order_id)

  pub start_payment-Evolves :
      (order_id : ℕ) (user : Text) → Keeps (Evolves before) (start_payment order_id user)
  unfolding start_payment
  start_payment-Evolves order_id user =
      keeps_bind (Evolves before)
        (Keeps-statement (Evolves before) database (λ db. ok (start_row order_id user db))
          λ db h. Evolves-trans before db _ h (start_row-Evolves order_id user db))
        (start_rest-Keeps (Evolves before) order_id user)

  pub resolve_payment-Evolves :
      (order_id : ℕ) (outcome : PaymentOutcome)
      → Keeps (Evolves before) (resolve_payment order_id outcome)
  unfolding resolve_payment
  resolve_payment-Evolves order_id failed =
      keeps_bind (Evolves before) (update_order-Evolves order_id _ canceled (λ row h. ground arith))
        (resolve_rest-Keeps (Evolves before) order_id failed true)
  resolve_payment-Evolves order_id succeeded =
      keeps_bind (Evolves before) (update_order-Evolves order_id _ complete (λ row h. ground arith))
        (resolve_rest-Keeps (Evolves before) order_id succeeded false)
  resolve_payment-Evolves order_id unspecified = Keeps-raise (Evolves before) _

  pub cancel_by_id_and_user-Evolves :
      (order_id : ℕ) (user : Text) → Keeps (Evolves before) (cancel_by_id_and_user order_id user)
  unfolding cancel_by_id_and_user
  cancel_by_id_and_user-Evolves order_id user =
      keeps_bind (Evolves before) (update_order-Evolves order_id _ canceled (λ row h. ground arith))
        (cancel_rest-Keeps (Evolves before) order_id user)
