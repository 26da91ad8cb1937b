-- ===== src/Payments/Repository.antt =====
-- apps/payments/internal/payment/postgres_repository.go: its statements on the tables, and the Go
-- code round them. `now` is the statement's NOW(), `random_id` what gen_random_uuid() would give.
pub mod Follows
pub mod Stays
pub mod Progress
pub mod Waiting
pub mod Fate
use polyglot_ticketing_v.Base.{
  ℕ, Bool, true, false, not, ◌&&◌, Option, none, some, [], ◌∷◌, Text, text_eq, leb, ltb, ◌==◌,
  if◌then◌else◌, is_some, Result, ok, err,
}
use polyglot_ticketing_v.Base.Int.{pos, ltb_ℤ}
use polyglot_ticketing_v.Base.Table.{Table, lookup, write, select_first}
use polyglot_ticketing_v.Base.Db.{
  timestamptz, DbError, check_violation, unique_violation, invalid_text, no_rows, other, Db, pure,
  raise, ◌>>=◌, ◌>>◌, statement, query, transaction,
}
use polyglot_ticketing_v.Payments.Model.{
  Error, payment_not_pending, database, OrderStatus, unspecified, Status, pending, Order, Payment,
  CreateInput, OrderRow, PaymentRow, PaymentsDb, is_pending, status_eq, order_status_eq,
  expected_order_status,
}

abbrev pub foreign_key_violation : DbError
foreign_key_violation = other 23503

abbrev pub scan_payment : ℕ → PaymentRow → Payment
scan_payment id row = record {
  id = id;
  mock_outcome = row.mock_outcome;
  order_id = row.order_id;
  status = row.status;
}

abbrev pub scan_found : Option (ℕ × PaymentRow) → Option Payment
scan_found none = none
scan_found (some (id, row)) = some (scan_payment id row)

unfoldable pub require : {A : Type 0} → Error → Option A → Db PaymentsDb Error A
require e none = raise e
require e (some a) = pure a

abbrev pub snapshot : Order → OrderRow
snapshot order = record {
  aggregate_version = 0;
  user_id = order.user_id;
  price = order.price;
  status = order.status;
}

-- INSERT INTO orders … ON CONFLICT (id) DO NOTHING; the empty status is no value of the enum.
pub insert_snapshot : Order → PaymentsDb → Result DbError (Unit {0} × PaymentsDb)
insert_snapshot order db =
    if order_status_eq order.status unspecified
    then err invalid_text
    else if not (ltb_ℤ (pos 0) order.price)
    then err check_violation
    else if is_some (lookup order.id db.orders)
    then ok (tt, db)
    else ok (tt, record db { orders = write order.id (snapshot order) db.orders })

pub pays : ℕ → ℕ → PaymentRow → Bool
pays order_id id row = row.order_id == order_id

-- No order among the rows of one order, which is unique.
abbrev pub in_any_order : PaymentRow → PaymentRow → Bool
in_any_order _ _ = false

pub payment_of : ℕ → PaymentsDb → Option Payment
payment_of order_id db = scan_found (select_first (pays order_id) in_any_order db.payments)

abbrev pub new_payment : ℕ → PaymentRow
new_payment order_id = record {
  order_id = order_id;
  status = pending;
  mock_outcome = none;
  settlement_lease_expires_at = none;
}

-- INSERT INTO payments … ON CONFLICT (order_id) DO NOTHING RETURNING ….
pub insert_payment : ℕ → ℕ → PaymentsDb → Result DbError (Option Payment × PaymentsDb)
insert_payment id order_id db =
    if is_some (payment_of order_id db)
    then ok (none, db)
    else if is_some (lookup id db.payments)
    then err unique_violation
    else if is_some (lookup order_id db.orders)
    then ok (
      some (scan_payment id (new_payment order_id)),
      record db { payments = write id (new_payment order_id) db.payments },
    )
    else err foreign_key_violation

pub create_rest : ℕ → Option Payment → Db PaymentsDb Error (Payment × Bool)
unfolding require
create_rest order_id (some payment) = pure (payment, true)
create_rest order_id none = do
  row ← query database (payment_of order_id)
  existing ← require (database no_rows) row
  pure (existing, false)

-- `Create`.
pub create : ℕ → CreateInput → Order → Db PaymentsDb Error (Payment × Bool)
unfolding create_rest
create random_id input order = transaction database do
  statement database (insert_snapshot order)
  payment ← statement database (insert_payment random_id input.order_id)
  create_rest input.order_id payment

-- JOIN orders ON orders.id = payments.order_id … AND orders.user_id = $2.
abbrev pub owned_by : Text → Option OrderRow → Option Payment → Option Payment
owned_by user_id none payment = none
owned_by user_id (some order) payment = if text_eq order.user_id user_id then payment else none

-- `FindByOrderAndUser`; no payment is its `false`.
pub find_by_order_and_user : ℕ → Text → Db PaymentsDb Error (Option Payment)
find_by_order_and_user order_id user_id =
    query database (λ db. owned_by user_id (lookup order_id db.orders) (payment_of order_id db))

abbrev pub lease_over : ℕ → Option ℕ → Bool
lease_over now none = true
lease_over now (some at) = leb at now

-- The WHERE of the claim.
unfoldable pub is_claimable : ℕ → ℕ → PaymentRow → Bool
is_claimable now id row = is_pending row.status && lease_over now row.settlement_lease_expires_at

-- SELECT … WHERE … ORDER BY id … LIMIT 1: the claimable row with the least id.
abbrev least : ℕ → PaymentRow → Option (ℕ × PaymentRow) → ℕ × PaymentRow
least k v none = (k, v)
least k v (some (j, w)) = if ltb j k then (j, w) else (k, v)

unfoldable pub select_least : (ℕ → PaymentRow → Bool) → Table PaymentRow → Option (ℕ × PaymentRow)
select_least test [] = none
select_least test ((k, v) ∷ rows) =
    let rest = select_least test rows in if test k v then some (least k v rest) else rest

unfoldable pub claim_first : ℕ → PaymentsDb → Option (ℕ × PaymentRow)
unfolding select_least
claim_first now db = select_least (is_claimable now) db.payments

-- COALESCE(mock_outcome, $2).
abbrev pub coalesce : Option Status → Status → Status
coalesce none outcome = outcome
coalesce (some chosen) _ = chosen

abbrev pub leased : Status → ℕ → PaymentRow → PaymentRow
leased outcome lease_until row = record row {
  mock_outcome = some (coalesce row.mock_outcome outcome);
  settlement_lease_expires_at = some (timestamptz lease_until);
}

-- UPDATE payments SET mock_outcome, settlement_lease_expires_at … RETURNING mock_outcome.
unfoldable pub lease_found :
    Status
    → ℕ
    → ℕ
    → Option PaymentRow
    → PaymentsDb
    → Result DbError (Option (Option Status) × PaymentsDb)
lease_found outcome lease_until id none db = ok (none, db)
lease_found outcome lease_until id (some row) db =
    if is_pending (coalesce row.mock_outcome outcome)
    then err check_violation
    else ok (
      some (some (coalesce row.mock_outcome outcome)),
      record db { payments = write id (leased outcome lease_until row) db.payments },
    )

unfoldable pub claim_rest :
    Status → ℕ → Option (ℕ × PaymentRow) → Db PaymentsDb Error (Option Payment)
unfolding require
claim_rest outcome lease_until none = pure none
claim_rest outcome lease_until (some (id, row)) = do
  returned ←
      statement database (λ db. lease_found outcome lease_until id (lookup id db.payments) db)
  mock_outcome ← require (database no_rows) returned
  pure (some (record (scan_payment id row) { mock_outcome = mock_outcome }))

-- `ClaimNextPending`; that none was found is its `false`.
unfoldable pub claim_next_pending : ℕ → Status → ℕ → Db PaymentsDb Error (Option Payment)
unfolding claim_rest
claim_next_pending now outcome lease_until =
    transaction database
      do claimed ← query database (claim_first now); claim_rest outcome lease_until claimed

abbrev pub outcome_is : Status → Option Status → Bool
outcome_is outcome none = false
outcome_is outcome (some chosen) = status_eq chosen outcome

-- The WHERE of `MarkResolved`, at the row with the id.
unfoldable pub is_due : Status → PaymentRow → Bool
is_due outcome row = is_pending row.status && outcome_is outcome row.mock_outcome

abbrev pub settled : Status → PaymentRow → PaymentRow
settled outcome row = record row { status = outcome; settlement_lease_expires_at = none }

-- UPDATE payments SET status, settlement_lease_expires_at = NULL … RETURNING order_id.
unfoldable pub resolve_found : Status → ℕ → Option PaymentRow → PaymentsDb → Option ℕ × PaymentsDb
resolve_found outcome id none db = (none, db)
resolve_found outcome id (some row) db =
    if is_due outcome row
    then (some row.order_id, record db { payments = write id (settled outcome row) db.payments })
    else (none, db)

-- UPDATE orders SET status = $2 WHERE id = $1; the empty status is no value of the enum.
unfoldable pub set_order_status :
    OrderStatus → ℕ → Option OrderRow → PaymentsDb → Result DbError (Unit {0} × PaymentsDb)
set_order_status status id none db = ok (tt, db)
set_order_status status id (some row) db =
    if order_status_eq status unspecified
    then err invalid_text
    else ok (tt, record db { orders = write id (record row { status = status }) db.orders })

-- `MarkResolved`.
unfoldable pub mark_resolved : ℕ → Status → Db PaymentsDb Error (Unit {0})
unfolding require
mark_resolved payment_id outcome = transaction database do
  row ←
      statement database
        (λ db. ok (resolve_found outcome payment_id (lookup payment_id db.payments) db))
  order_id ← require payment_not_pending row
  statement database (λ db.
      set_order_status (expected_order_status outcome) order_id (lookup order_id db.orders) db)
