-- ===== src/Orders/Repository/Checkout.antt =====
-- The start of a payment may be tried again, and asks for the price of the order's ticket.
pub mod Refusals
use polyglot_ticketing_v.Base.{
  ℕ, ◌≡◌, true, false, none, some, arith, Bool-cases, Option-cases, inl, inr, Text, text_eq, ok,
}
use polyglot_ticketing_v.Base.Table.{lookup, write, lookup-write}
use polyglot_ticketing_v.Base.Db.{◌>>=◌, statement, query, pure_if}
use polyglot_ticketing_v.Base.Db.Retry.{calm, RetrySafe, write-RetrySafe}
use polyglot_ticketing_v.Orders.Model.{
  database, awaiting_payment, PaymentOrder, TicketRow, OrderRow, OrdersDb,
}
use polyglot_ticketing_v.Orders.Repository.{
  may_start, start_row, start_payment, start_rest, find_payment_order,
}
use polyglot_ticketing_v.Orders.Repository.Reads.{start_rest-Keeps}

module _ (id : ℕ) (user : Text) (db : OrdersDb) where
  start_row-absent : lookup id db.orders ≡ none → start_row id user db ≡ (none, db)
  unfolding start_row
  start_row-absent absent = rw absent

  start_row-fail :
      (row : OrderRow)
      → lookup id db.orders ≡ some row
      → may_start user db row ≡ false
      → start_row id user db ≡ (none, db)
  unfolding start_row
  start_row-fail row found fail = rw found (rw fail)

  abbrev started : OrderRow → OrdersDb
  started row = record db { orders = write id (record row { status = awaiting_payment }) db.orders }

  abbrev offer : OrderRow → TicketRow → PaymentOrder
  offer row ticket = record {
    id = id;
    price = ticket.price;
    status = awaiting_payment;
    user_id = row.user_id;
  }

  start_row-pass :
      (row : OrderRow) (ticket : TicketRow)
      → lookup id db.orders ≡ some row
      → lookup row.ticket_id db.tickets ≡ some ticket
      → may_start user db row ≡ true
      → start_row id user db ≡ (some (offer row ticket), started row)
  unfolding start_row
  start_row-pass row ticket found known pass = rw found (rw (pass, known))

  start_row-started :
      (row : OrderRow)
      → may_start user (started row) (record row { status = awaiting_payment }) ≡ false
  unfolding may_start
  start_row-started row = ground arith

  may_start-parts :
      (row : OrderRow)
      → may_start user db row ≡ true
      → (text_eq row.user_id user ≡ true)
        × ((ticket : TicketRow) × (lookup row.ticket_id db.tickets ≡ some ticket))
  unfolding may_start
  may_start-parts row pass = elim (Option-cases (lookup row.ticket_id db.tickets)) [
    | inl unknown ↦ absurd (ground arith)
    | inr (ticket, known) ↦ (ground arith, (ticket, known))
  ]

start_again :
    (id : ℕ) (user : Text) (db : OrdersDb)
    → (statement database (λ u. ok (start_row id user u)) >>= start_rest id user)
        (calm (start_row id user db).1)
      ≡ (statement database (λ u. ok (start_row id user u)) >>= start_rest id user) (calm db)
unfolding statement start_rest find_payment_order query pure_if
start_again id user db = elim (Option-cases (lookup id db.orders)) [
  | inl absent ↦
      let unchanged : start_row id user db ≡ (none, db) = start_row-absent id user db absent in
      rw (unchanged, unchanged)
  | inr (row, found) ↦ elim (Bool-cases (may_start user db row)) [
    | inr fail ↦
        let unchanged : start_row id user db ≡ (none, db) =
          start_row-fail id user db row found fail in
        rw (unchanged, unchanged)
    | inl pass ↦
        let (owner, (ticket, known)) = may_start-parts id user db row pass in
        let row' : OrderRow = record row { status = awaiting_payment } in
        let db' : OrdersDb = started id user db row in
        let at : lookup id db'.orders ≡ some row' =
          ground (arith, lookup-write id id row' db.orders) in
        rw (start_row-pass id user db row ticket found known pass) (
          rw (start_row-fail id user db' row' at (start_row-started id user db row))
            (rw at (rw (owner, known))))
  ]
]

-- An attempt to start a payment that failed, whatever it did, may be made again.
pub start_payment-RetrySafe : (id : ℕ) (user : Text) → RetrySafe (start_payment id user)
unfolding start_payment
start_payment-RetrySafe id user =
    write-RetrySafe database (start_row id user) (start_rest id user)
      (λ I found. start_rest-Keeps I id user found) (start_again id user)
