-- ===== src/Orders/Repository/Exclusive.antt =====
-- Every operation of the Orders repository keeps the invariant of its tables, so that no two
-- orders ever hold one ticket.
use mathlib.Core.Bool.{false≢true}
use polyglot_ticketing_v.Base.{
  ℕ, ◌≡◌, refl, sym, ◌∙◌, Bool, true, false, Option, none, some, arith, Bool-cases, Option-cases,
  is_some, inl, inr, Text, ok,
}
use polyglot_ticketing_v.Base.Table.{lookup, select_first, select_first_complete}
use polyglot_ticketing_v.Base.Db.{timestamptz}
use polyglot_ticketing_v.Base.Db.Laws.{
  Ensures, ensures_pure_if, Then, ensures_bind, ensures_statement, ensures_query,
}
use polyglot_ticketing_v.Base.Db.Keeps.{
  Keeps, Written, Keeps-pure, Keeps-raise, keeps_bind, Keeps-statement, Keeps-query,
  Keeps-transaction, Written-Meets,
}
use polyglot_ticketing_v.Orders.Model.{
  not_found, database, Status, created, canceled, complete, awaiting_payment, Order, PaymentOutcome,
  failed, succeeded, unspecified, ReservationResult, TicketReservationInput, OrderRow, OrdersDb,
  is_awaiting_payment,
}
use polyglot_ticketing_v.Orders.Repository.{
  scan_found, blocks, blocking_before, find_blocking_order, insert_row, insert_order, order_id_or,
  reserve_with, reserve_ticket, update_status, update_order, expire_created_order, is_overdue,
  may_start, start_row, start_payment, resolve_payment, cancel_by_id_and_user,
}
use polyglot_ticketing_v.Orders.Repository.Reads.{
  Keeps-require, expire_rest-Keeps, start_rest-Keeps, resolve_rest-Keeps, cancel_rest-Keeps,
}
use polyglot_ticketing_v.Orders.Repository.Invariant.{is_blocking, IsValid, write-IsValid}

-- A change of status keeps the invariant where it does not make an order hold a ticket anew.
pub update_status-IsValid :
    (id : ℕ) (test : OrderRow → Bool) (target : Status) (db : OrdersDb)
    → ((row : OrderRow)
        → test row ≡ true
        → is_blocking target ≡ true
        → is_blocking row.status ≡ true)
    → IsValid db
    → IsValid (update_status id test target db).1
unfolding update_status
update_status-IsValid id test target db keep valid = elim (Option-cases (lookup id db.orders)) [
  | inl absent ↦ rw absent valid
  | inr (row, found) ↦ elim (Bool-cases (test row)) [
    | inl pass ↦ rw found (
        rw pass (
          write-IsValid id (record row { status = target }) db valid (valid.referenced id row found)
            λ b j w e bw same. valid.exclusive id j row w found e (keep row pass b) bw same))
    | inr fail ↦ rw found (rw fail valid)
  ]
]

may_start-blocking :
    (user : Text) (db : OrdersDb) (row : OrderRow)
    → may_start user db row ≡ true
    → is_blocking row.status ≡ true
unfolding may_start
may_start-blocking user db row h = ground arith

pub start_row-IsValid :
    (id : ℕ) (user : Text) (db : OrdersDb) → IsValid db → IsValid (start_row id user db).1
unfolding start_row
start_row-IsValid id user db valid = elim (Option-cases (lookup id db.orders)) [
  | inl absent ↦ rw absent valid
  | inr (row, found) ↦ elim (Bool-cases (may_start user db row)) [
    | inl pass ↦ rw found (
        rw pass (
          write-IsValid id (record row { status = awaiting_payment }) db valid
            (valid.referenced id row found)
            λ b j w e bw same.
              valid.exclusive id j row w found e (may_start-blocking user db row pass) bw same))
    | inr fail ↦ rw found (rw fail valid)
  ]
]

-- No order holds the ticket where the search for one has found none.
abbrev NoHolder : ℕ → Option Order → OrdersDb → Type 0
NoHolder ticket none db =
    (i : ℕ) (v : OrderRow)
    → lookup i db.orders ≡ some v
    → ticket ≡ v.ticket_id
    → is_blocking v.status ≡ false
NoHolder ticket (some _) db = Unit

select-NoHolder :
    (ticket : ℕ) (db : OrdersDb)
    → NoHolder ticket (scan_found (select_first (blocks ticket) blocking_before db.orders)) db
unfolding blocks
select-NoHolder ticket db =
    elim (Option-cases (select_first (blocks ticket) blocking_before db.orders)) [
      | inl nothing ↦ rw nothing λ i v e same.
          ground
            (arith, select_first_complete (blocks ticket) blocking_before db.orders i v nothing e)
      | inr (found, e) ↦ rw e tt
    ]

insert_row-Written :
    (id : ℕ) (input : TicketReservationInput) (db : OrdersDb)
    → NoHolder input.ticket_id none db
    → IsValid db
    → Written IsValid (insert_row id input db)
unfolding insert_row
insert_row-Written id input db free valid = elim (Bool-cases (is_some (lookup id db.orders))) [
  | inl taken ↦ rw taken tt
  | inr fresh ↦ elim (Bool-cases (is_some (lookup input.ticket_id db.tickets))) [
    | inr unknown ↦ rw (fresh, unknown) tt
    | inl known ↦
        rw (fresh, known)
          (write-IsValid id
            (record {
              expires_at = timestamptz input.expires_at;
              user_id = input.user_id;
              ticket_id = input.ticket_id;
              status = created;
            })
            db valid known λ b j w e bw same. absurd (false≢true (sym (free j w e same) ∙ bw)))
  ]
]

insert_order-IsValid :
    (random_id : ℕ) (input : TicketReservationInput)
    → Ensures
        (λ db. IsValid db × NoHolder input.ticket_id none db)
        (insert_order random_id input)
        (λ _ db. IsValid db)
unfolding insert_order
insert_order-IsValid random_id input =
    ensures_statement database (insert_row (order_id_or random_id input.order_id) input) λ db h.
      Written-Meets IsValid database db (insert_row (order_id_or random_id input.order_id) input db)
        h.0 (insert_row-Written (order_id_or random_id input.order_id) input db h.1 h.0)

reserve_with-IsValid :
    (random_id : ℕ) (input : TicketReservationInput) (existing : Option Order)
    → Ensures
        (λ db. IsValid db × NoHolder input.ticket_id existing db)
        (reserve_with random_id input existing)
        (λ _ db. IsValid db)
unfolding reserve_with
reserve_with-IsValid random_id input none =
    keeps_bind IsValid (insert_order-IsValid random_id input) (λ order. Keeps-pure IsValid _)
reserve_with-IsValid random_id input (some existing) =
    ensures_pure_if _ _ _ (λ _ db h. h.0) (λ _ db h. h.0)

find_blocking_order-NoHolder :
    (ticket : ℕ)
    → Ensures IsValid (find_blocking_order ticket) (
        Then {B = ReservationResult}
          (λ existing db. IsValid db × NoHolder ticket existing db)
          (λ _ db. IsValid db))
unfolding find_blocking_order
find_blocking_order-NoHolder ticket =
    ensures_query database _ (λ db valid. (valid, select-NoHolder ticket db)) (λ e db valid. valid)

-- Whatever goes wrong, `ReserveTicket` keeps the invariant.
pub reserve_ticket-IsValid :
    (random_id : ℕ) (input : TicketReservationInput)
    → Keeps IsValid (reserve_ticket random_id input)
unfolding reserve_ticket
reserve_ticket-IsValid random_id input = Keeps-transaction IsValid database (
    keeps_bind IsValid (Keeps-query IsValid database _) λ row.
      keeps_bind IsValid (Keeps-require IsValid not_found row) λ _.
        ensures_bind (λ existing db. IsValid db × NoHolder input.ticket_id existing db)
          (find_blocking_order-NoHolder input.ticket_id) (reserve_with-IsValid random_id input))

update_order-IsValid :
    (id : ℕ) (test : OrderRow → Bool) (target : Status)
    → ((row : OrderRow)
        → test row ≡ true
        → is_blocking target ≡ true
        → is_blocking row.status ≡ true)
    → Keeps IsValid (update_order id test target)
unfolding update_order
update_order-IsValid id test target keep =
    Keeps-statement IsValid database (λ db. ok (update_status id test target db))
      λ db valid. update_status-IsValid id test target db keep valid

pub expire_created_order-IsValid :
    (now order_id : ℕ) → Keeps IsValid (expire_created_order now order_id)
unfolding expire_created_order
expire_created_order-IsValid now order_id =
    keeps_bind IsValid
      (update_order-IsValid order_id (is_overdue now) canceled (λ row t b. absurd (false≢true b)))
      (expire_rest-Keeps IsValid order_id)

pub start_payment-IsValid :
    (order_id : ℕ) (user : Text) → Keeps IsValid (start_payment order_id user)
unfolding start_payment
start_payment-IsValid order_id user =
    keeps_bind IsValid
      (Keeps-statement IsValid database (λ db. ok (start_row order_id user db))
        (start_row-IsValid order_id user))
      (start_rest-Keeps IsValid order_id user)

awaiting-blocking :
    (status : Status) → is_awaiting_payment status ≡ true → is_blocking status ≡ true
awaiting-blocking awaiting_payment h = refl
awaiting-blocking created h = refl
awaiting-blocking complete h = refl
awaiting-blocking canceled h = h

pub resolve_payment-IsValid :
    (order_id : ℕ) (outcome : PaymentOutcome) → Keeps IsValid (resolve_payment order_id outcome)
unfolding resolve_payment
resolve_payment-IsValid order_id failed =
    keeps_bind IsValid (update_order-IsValid order_id _ canceled (λ row t b. absurd (false≢true b)))
      (resolve_rest-Keeps IsValid order_id failed true)
resolve_payment-IsValid order_id succeeded =
    keeps_bind IsValid
      (update_order-IsValid order_id _ complete (λ row t b. awaiting-blocking row.status t))
      (resolve_rest-Keeps IsValid order_id succeeded false)
resolve_payment-IsValid order_id unspecified = Keeps-raise IsValid _

pub cancel_by_id_and_user-IsValid :
    (order_id : ℕ) (user : Text) → Keeps IsValid (cancel_by_id_and_user order_id user)
unfolding cancel_by_id_and_user
cancel_by_id_and_user-IsValid order_id user =
    keeps_bind IsValid (update_order-IsValid order_id _ canceled (λ row t b. absurd (false≢true b)))
      (cancel_rest-Keeps IsValid order_id user)
