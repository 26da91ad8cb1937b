-- ===== src/Orders/Repository.antt =====
-- apps/orders/internal/order/postgres_repository.go: its statements on the tables, and the Go
-- code round them. `now` is the statement's NOW(), `random_id` what gen_random_uuid() would give.
pub mod Invariant
pub mod Reads
pub mod Exclusive
pub mod Evolves
pub mod Copies
pub mod Transitions
pub mod Reservation
pub mod Answers
pub mod Cancel
pub mod Retry
pub mod Checkout
use polyglot_ticketing_v.Base.{
  ℕ, Bool, true, false, not, ◌&&◌, ◌||◌, Option, none, some, List, map, Text, text_eq, leb, ltb,
  ◌==◌, if◌then◌else◌, is_some, Result, ok, err,
}
use polyglot_ticketing_v.Base.Int.{ℤ}
use polyglot_ticketing_v.Base.Table.{lookup, write, select, select_first, sort}
use polyglot_ticketing_v.Base.Db.{
  timestamptz, DbError, unique_violation, other, Db, pure, pure_if, raise, ◌>>=◌, ◌>>◌, statement,
  query, transaction,
}
use polyglot_ticketing_v.Orders.Model.{
  Error, not_found, order_not_cancelable, order_not_found, order_not_payable, reserved, database,
  Status, created, canceled, awaiting_payment, complete, Order, PaymentOrder, PaymentOutcome,
  failed, succeeded, unspecified, PaymentResolutionResult, TicketReservationInput,
  ReservationResult, ExpirationResult, TicketRow, OrderRow, OrdersDb, is_created, is_canceled,
  is_awaiting_payment, is_complete,
}

-- The columns of a row, scanned into the struct.
abbrev pub scan_order : ℕ → OrderRow → Order
scan_order id row = record {
  expires_at = row.expires_at;
  id = id;
  status = row.status;
  ticket_id = row.ticket_id;
  user_id = row.user_id;
}

abbrev pub scan_found : Option (ℕ × OrderRow) → Option Order
scan_found none = none
scan_found (some (id, row)) = some (scan_order id row)

-- The WHERE and the ORDER BY of `findBlockingOrder`.
unfoldable pub blocks : ℕ → ℕ → OrderRow → Bool
blocks ticket_id id row =
    row.ticket_id == ticket_id
    && (is_complete row.status || is_awaiting_payment row.status || is_created row.status)

abbrev rank : Status → ℕ
rank complete = 0
rank _ = 1

unfoldable pub blocking_before : OrderRow → OrderRow → Bool
blocking_before v w =
    if rank v.status == rank w.status
    then ltb w.expires_at v.expires_at
    else ltb (rank v.status) (rank w.status)

unfoldable pub find_blocking_order : ℕ → Db OrdersDb Error (Option Order)
find_blocking_order ticket_id =
    query database (λ db. scan_found (select_first (blocks ticket_id) blocking_before db.orders))

-- COALESCE(NULLIF($1, '')::uuid, gen_random_uuid()).
abbrev pub order_id_or : ℕ → Option ℕ → ℕ
order_id_or random_id none = random_id
order_id_or random_id (some id) = id

abbrev pub foreign_key_violation : DbError
foreign_key_violation = other 23503

-- The INSERT, with the constraints of the table that it can violate.
unfoldable pub insert_row :
    ℕ → TicketReservationInput → OrdersDb → Result DbError (Order × OrdersDb)
insert_row id input db =
    let row : OrderRow = record {
      expires_at = timestamptz input.expires_at;
      user_id = input.user_id;
      ticket_id = input.ticket_id;
      status = created;
    } in
    if is_some (lookup id db.orders)
    then err unique_violation
    else if is_some (lookup input.ticket_id db.tickets)
    then ok (scan_order id row, record db { orders = write id row db.orders })
    else err foreign_key_violation

unfoldable pub insert_order : ℕ → TicketReservationInput → Db OrdersDb Error Order
insert_order random_id input =
    statement database (insert_row (order_id_or random_id input.order_id) input)

-- `errors.Is(err, pgx.ErrNoRows)`: a query that wants a row and has none.
unfoldable pub require : {A : Type 0} → Error → Option A → Db OrdersDb Error A
require e none = raise e
require e (some a) = pure a

unfoldable pub reserve_with :
    ℕ → TicketReservationInput → Option Order → Db OrdersDb Error ReservationResult
unfolding insert_order
reserve_with random_id input none = do
  order ← insert_order random_id input
  pure (record { created = true; order = order })
reserve_with random_id input (some existing) =
    pure_if (text_eq existing.user_id input.user_id && not (is_complete existing.status))
      (record { created = false; order = existing }) reserved

-- `ReserveTicket`. The row lock of FOR UPDATE makes the transaction run alone on its ticket.
unfoldable pub reserve_ticket : ℕ → TicketReservationInput → Db OrdersDb Error ReservationResult
unfolding require find_blocking_order reserve_with
reserve_ticket random_id input = transaction database do
  row ← query database (λ db. lookup input.ticket_id db.tickets)
  require not_found row
  existing ← find_blocking_order input.ticket_id
  reserve_with random_id input existing

-- UPDATE orders SET status = target WHERE id = $1 AND test RETURNING …: the primary key is unique,
-- so there is at most one row.
abbrev update_found :
    ℕ → (OrderRow → Bool) → Status → OrdersDb → Option OrderRow → Option Order × OrdersDb
update_found id test target db none = (none, db)
update_found id test target db (some row) =
    let row' = record row { status = target } in
    if test row
    then (some (scan_order id row'), record db { orders = write id row' db.orders })
    else (none, db)

unfoldable pub update_status : ℕ → (OrderRow → Bool) → Status → OrdersDb → Option Order × OrdersDb
update_status id test target db = update_found id test target db (lookup id db.orders)

unfoldable pub update_order : ℕ → (OrderRow → Bool) → Status → Db OrdersDb Error (Option Order)
update_order id test target = statement database (λ db. ok (update_status id test target db))

-- SELECT … FROM orders WHERE id = $1 AND test.
abbrev keep_if : ℕ → (OrderRow → Bool) → Option OrderRow → Option Order
keep_if id test none = none
keep_if id test (some row) = if test row then some (scan_order id row) else none

pub find_order : ℕ → (OrderRow → Bool) → OrdersDb → Option Order
find_order id test db = keep_if id test (lookup id db.orders)

pub get_by_id : ℕ → Db OrdersDb Error Order
unfolding require
get_by_id order_id = do
  found ← query database (find_order order_id (λ _. true))
  require order_not_found found

unfoldable pub get_by_id_and_user : ℕ → Text → Db OrdersDb Error Order
unfolding require
get_by_id_and_user order_id user_id = do
  found ← query database (find_order order_id (λ row. text_eq row.user_id user_id))
  require order_not_found found

-- `ExpireCreatedOrder`, behind its UPDATE.
pub expire_rest : ℕ → Option Order → Db OrdersDb Error ExpirationResult
unfolding get_by_id
expire_rest order_id (some expired) =
    pure (record { order = expired; should_release_ticket = true })
expire_rest order_id none = do
  found ← get_by_id order_id
  pure (record { order = found; should_release_ticket = is_canceled found.status })

pub is_overdue : ℕ → OrderRow → Bool
is_overdue now row = is_created row.status && leb row.expires_at now

pub expire_created_order : ℕ → ℕ → Db OrdersDb Error ExpirationResult
unfolding update_order expire_rest
expire_created_order now order_id = do
  expired ← update_order order_id (is_overdue now) canceled
  expire_rest order_id expired

-- The row of `StartPayment`'s two statements: the order's own columns with the ticket's price.
abbrev with_price : ℕ → OrderRow → Option TicketRow → Option PaymentOrder
with_price id row none = none
with_price id row (some ticket) =
    some (record { id = id; price = ticket.price; status = row.status; user_id = row.user_id })

abbrev priced : ℕ → Text → OrdersDb → Option OrderRow → Option PaymentOrder
priced id user_id db none = none
priced id user_id db (some row) =
    if text_eq row.user_id user_id
    then with_price id row (lookup row.ticket_id db.tickets)
    else none

-- SELECT … FROM orders JOIN tickets ….
pub find_payment_order : ℕ → Text → OrdersDb → Option PaymentOrder
find_payment_order id user_id db = priced id user_id db (lookup id db.orders)

-- The WHERE of `StartPayment`'s UPDATE, at the row with the id.
pub may_start : Text → OrdersDb → OrderRow → Bool
may_start user_id db row =
    text_eq row.user_id user_id
    && is_some (lookup row.ticket_id db.tickets)
    && is_created row.status

-- UPDATE orders … FROM tickets … RETURNING …: what is returned is read off the changed row.
abbrev started_row : ℕ → Text → OrdersDb → Option OrderRow → Option PaymentOrder × OrdersDb
started_row id user_id db none = (none, db)
started_row id user_id db (some row) =
    let row' = record row { status = awaiting_payment } in
    if may_start user_id db row
    then (
      with_price id row' (lookup row.ticket_id db.tickets),
      record db { orders = write id row' db.orders },
    )
    else (none, db)

pub start_row : ℕ → Text → OrdersDb → Option PaymentOrder × OrdersDb
start_row id user_id db = started_row id user_id db (lookup id db.orders)

pub start_rest : ℕ → Text → Option PaymentOrder → Db OrdersDb Error PaymentOrder
unfolding require
start_rest order_id user_id (some started) = pure started
start_rest order_id user_id none = do
  row ← query database (find_payment_order order_id user_id)
  found ← require order_not_found row
  pure_if (is_awaiting_payment found.status) found order_not_payable

pub start_payment : ℕ → Text → Db OrdersDb Error PaymentOrder
unfolding start_rest
start_payment order_id user_id = do
  started ← statement database (λ db. ok (start_row order_id user_id db))
  start_rest order_id user_id started

-- The switch at the head of `ResolvePayment`: the target status, and whether to release.
abbrev pub resolution : PaymentOutcome → Option (Status × Bool)
resolution succeeded = some (complete, false)
resolution failed = some (canceled, true)
resolution unspecified = none

abbrev pub has_outcome : PaymentOutcome → Status → Bool
has_outcome succeeded status = is_complete status
has_outcome failed status = is_canceled status
has_outcome unspecified _ = false

pub resolve_rest :
    ℕ → PaymentOutcome → Bool → Option Order → Db OrdersDb Error PaymentResolutionResult
unfolding get_by_id
resolve_rest order_id outcome release (some resolved) =
    pure (record { order = resolved; should_release_ticket = release })
resolve_rest order_id outcome release none = do
  found ← get_by_id order_id
  pure_if (has_outcome outcome found.status)
      (record { order = found; should_release_ticket = release }) order_not_payable

pub resolve_to :
    ℕ → PaymentOutcome → Option (Status × Bool) → Db OrdersDb Error PaymentResolutionResult
unfolding update_order resolve_rest
resolve_to order_id outcome none = raise order_not_payable
resolve_to order_id outcome (some (target, release)) = do
  resolved ← update_order order_id (λ row. is_awaiting_payment row.status) target
  resolve_rest order_id outcome release resolved

pub resolve_payment : ℕ → PaymentOutcome → Db OrdersDb Error PaymentResolutionResult
unfolding resolve_to
resolve_payment order_id outcome = resolve_to order_id outcome (resolution outcome)

unfoldable pub cancel_rest : ℕ → Text → Option Order → Db OrdersDb Error Order
unfolding get_by_id_and_user
cancel_rest order_id user_id (some order) = pure order
cancel_rest order_id user_id none = do
  found ← get_by_id_and_user order_id user_id
  pure_if (is_canceled found.status) found order_not_cancelable

unfoldable pub cancel_by_id_and_user : ℕ → Text → Db OrdersDb Error Order
unfolding update_order cancel_rest
cancel_by_id_and_user order_id user_id = do
  order ←
      update_order order_id (λ row. text_eq row.user_id user_id && is_created row.status) canceled
  cancel_rest order_id user_id order

-- ORDER BY expires_at DESC, id DESC.
pub listed_before : ℕ × OrderRow → ℕ × OrderRow → Bool
listed_before (i, v) (j, w) =
    if v.expires_at == w.expires_at then ltb j i else ltb w.expires_at v.expires_at

abbrev scan_row : ℕ × OrderRow → Order
scan_row (id, row) = scan_order id row

pub list_by_user : Text → Db OrdersDb Error (List Order)
list_by_user user_id = query database λ db.
    map scan_row (sort listed_before (select (λ _ row. text_eq row.user_id user_id) db.orders))
