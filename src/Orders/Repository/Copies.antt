-- ===== src/Orders/Repository/Copies.antt =====
-- The calls of `OrderRepository` write orders only: what holds of the tables whatever the orders are
-- is kept by each.
use polyglot_ticketing_v.Base.{
  ℕ, Bool, true, false, Option, none, some, Bool-cases, Option-cases, is_some, inl, inr, Text, ok,
}
use polyglot_ticketing_v.Base.Table.{Table, lookup}
use polyglot_ticketing_v.Base.Db.Keeps.{
  Keeps, Written, Keeps-pure, Keeps-pure_if, Keeps-raise, keeps_bind, Keeps-statement, Keeps-query,
  Keeps-transaction,
}
use polyglot_ticketing_v.Orders.Model.{
  database, not_found, Status, canceled, complete, Order, PaymentOutcome, failed, succeeded,
  unspecified, TicketReservationInput, OrderRow, OrdersDb,
}
use polyglot_ticketing_v.Orders.Repository.{
  insert_row, order_id_or, reserve_with, reserve_ticket, update_status, update_order,
  expire_created_order, is_overdue, may_start, start_row, start_payment, resolve_payment,
  cancel_by_id_and_user,
}
use polyglot_ticketing_v.Orders.Repository.Reads.{
  Keeps-require, expire_rest-Keeps, start_rest-Keeps, resolve_rest-Keeps, cancel_rest-Keeps,
}

module _ (I : OrdersDb → Type 0)
    (any : (orders : Table OrderRow) (db : OrdersDb)
      → I db
      → I (record db { orders = orders })) where
  insert_row-Written :
      (id : ℕ) (input : TicketReservationInput) (db : OrdersDb)
      → I db
      → Written I (insert_row id input db)
  unfolding insert_row
  insert_row-Written id input db h = elim (Bool-cases (is_some (lookup id db.orders))) [
    | inl taken ↦ rw taken tt
    | inr fresh ↦ elim (Bool-cases (is_some (lookup input.ticket_id db.tickets))) [
      | inr unknown ↦ rw (fresh, unknown) tt
      | inl known ↦ rw (fresh, known) (any _ db h)
    ]
  ]

  start_row-kept : (id : ℕ) (user : Text) (db : OrdersDb) → I db → I (start_row id user db).1
  unfolding start_row
  start_row-kept id user db h = elim (Option-cases (lookup id db.orders)) [
    | inl absent ↦ rw absent h
    | inr (row, found) ↦ elim (Bool-cases (may_start user db row)) [
      | inr fail ↦ rw found (rw fail h)
      | inl pass ↦ rw found (rw pass (any _ db h))
    ]
  ]

  update_order-Keeps :
      (id : ℕ) (test : OrderRow → Bool) (target : Status) → Keeps I (update_order id test target)
  unfolding update_order update_status
  update_order-Keeps id test target =
      Keeps-statement I database (λ db. ok (update_status id test target db))
        λ db h. elim (Option-cases (lookup id db.orders)) [
          | inl absent ↦ rw absent h
          | inr (row, found) ↦ elim (Bool-cases (test row)) [
            | inr fail ↦ rw found (rw fail h)
            | inl pass ↦ rw found (rw pass (any _ db h))
          ]
        ]

  reserve_with-Keeps :
      (random_id : ℕ) (input : TicketReservationInput) (existing : Option Order)
      → Keeps I (reserve_with random_id input existing)
  unfolding reserve_with
  reserve_with-Keeps random_id input (some existing) = Keeps-pure_if I _ _ _
  reserve_with-Keeps random_id input none =
      let id : ℕ = order_id_or random_id input.order_id in
      keeps_bind I (Keeps-statement I database (insert_row id input) (insert_row-Written id input))
        λ order. Keeps-pure I _

  pub reserve_ticket-Keeps :
      (random_id : ℕ) (input : TicketReservationInput) → Keeps I (reserve_ticket random_id input)
  unfolding reserve_ticket
  reserve_ticket-Keeps random_id input = Keeps-transaction I database (
      keeps_bind I (Keeps-query I database _) λ row.
        keeps_bind I (Keeps-require I not_found row)
          λ _. keeps_bind I (Keeps-query I database _) (reserve_with-Keeps random_id input))

  pub expire_created_order-Keeps : (now id : ℕ) → Keeps I (expire_created_order now id)
  unfolding expire_created_order
  expire_created_order-Keeps now id =
      keeps_bind I (update_order-Keeps id (is_overdue now) canceled) (expire_rest-Keeps I id)

  pub start_payment-Keeps : (id : ℕ) (user : Text) → Keeps I (start_payment id user)
  unfolding start_payment
  start_payment-Keeps id user =
      keeps_bind I
        (Keeps-statement I database (λ db. ok (start_row id user db)) (start_row-kept id user))
        (start_rest-Keeps I id user)

  pub resolve_payment-Keeps :
      (id : ℕ) (outcome : PaymentOutcome) → Keeps I (resolve_payment id outcome)
  unfolding resolve_payment
  resolve_payment-Keeps id failed =
      keeps_bind I (update_order-Keeps id _ canceled) (resolve_rest-Keeps I id failed true)
  resolve_payment-Keeps id succeeded =
      keeps_bind I (update_order-Keeps id _ complete) (resolve_rest-Keeps I id succeeded false)
  resolve_payment-Keeps id unspecified = Keeps-raise I _

  pub cancel_by_id_and_user-Keeps : (id : ℕ) (user : Text) → Keeps I (cancel_by_id_and_user id user)
  unfolding cancel_by_id_and_user
  cancel_by_id_and_user-Keeps id user =
      keeps_bind I (update_order-Keeps id _ canceled) (cancel_rest-Keeps I id user)
