-- ===== src/Tickets/Repository.antt =====
-- apps/tickets/internal/ticket/postgres_repository.go: its statements on the tables, and the Go
-- code round them. `random_id` is what uuid.NewString() would give.
pub mod ById
pub mod Frozen
pub mod Rows
pub mod Recorded
pub mod Originals
pub mod Snapshots
pub mod Edited
pub mod Free
pub mod Claims
pub mod ClaimReplays
pub mod Edits
pub mod Replays
use polyglot_ticketing_v.Base.{
  ℕ, ◌+◌, Bool, true, false, not, ◌&&◌, ◌||◌, Option, none, some, List, [], ◌∷◌, ◌++◌, map, Text,
  text_eq, ltb, ◌==◌, if◌then◌else◌, is_some, Result, ok, err,
}
use polyglot_ticketing_v.Base.Int.{ℤ, pos, ltb_ℤ}
use polyglot_ticketing_v.Base.Table.{lookup, write, sort}
use polyglot_ticketing_v.Base.Db.{
  DbError, check_violation, unique_violation, no_rows, other, Db, pure, pure_if, raise, ◌>>=◌, ◌>>◌,
  statement, query, transaction,
}
use polyglot_ticketing_v.Tickets.Model.{
  Error, forbidden, not_found, reserved, conflict, database, Ticket, CreateInput, UpdateInput,
  TicketRow, OperationRow, TicketsDb,
}

-- CHECK (price > 0).
abbrev pub price_ok : ℤ → Bool
price_ok price = ltb_ℤ (pos 0) price

-- A query whose row is scanned at once: `pgx.ErrNoRows` is passed on.
unfoldable pub require : {A : Type 0} → Error → Option A → Db TicketsDb Error A
require e none = raise e
require e (some a) = pure a

abbrev pub id_or : ℕ → Option ℕ → ℕ
id_or random_id none = random_id
id_or random_id (some id) = id

abbrev pub created_row : CreateInput → TicketRow
created_row input = record {
  title = input.title;
  price = input.price;
  user_id = input.user_id;
  aggregate_version = 1;
  reserved_by_order_id = none;
}

-- INSERT … ON CONFLICT (id) DO NOTHING.
unfoldable pub insert_ticket : ℕ → CreateInput → TicketsDb → Result DbError (Unit {0} × TicketsDb)
insert_ticket id input db =
    if not (price_ok input.price)
    then err check_violation
    else if is_some (lookup id db.tickets)
    then ok (tt, db)
    else ok (tt, record db { tickets = write id (created_row input) db.tickets })

abbrev pub owner_of : Option TicketRow → Option Text
owner_of none = none
owner_of (some row) = some row.user_id

unfoldable pub create_rest : ℕ → CreateInput → Text → Db TicketsDb Error Ticket
create_rest id input owner =
    pure_if (text_eq owner input.user_id)
      (record {
        id = id;
        title = input.title;
        price = input.price;
        user_id = input.user_id;
        aggregate_version = 1;
        reserved_by_order_id = none;
      })
      conflict

unfoldable pub create_at : ℕ → CreateInput → Db TicketsDb Error Ticket
unfolding require create_rest
create_at id input = do
  statement database (insert_ticket id input)
  found ← query database (λ db. owner_of (lookup id db.tickets))
  owner ← require (database no_rows) found
  create_rest id input owner

-- `Create`.
unfoldable pub create : ℕ → CreateInput → Db TicketsDb Error Ticket
unfolding create_at
create random_id input = create_at (id_or random_id input.id) input

abbrev pub scan_ticket : ℕ → TicketRow → Ticket
scan_ticket id row = record {
  id = id;
  title = row.title;
  price = row.price;
  user_id = row.user_id;
  aggregate_version = row.aggregate_version;
  reserved_by_order_id = row.reserved_by_order_id;
}

abbrev pub scan_found : ℕ → Option TicketRow → Option Ticket
scan_found id none = none
scan_found id (some row) = some (scan_ticket id row)

pub find_by_id : ℕ → Db TicketsDb Error Ticket
unfolding require
find_by_id id = do
  found ← query database (λ db. scan_found id (lookup id db.tickets))
  require not_found found

-- The order of titles is the database's collation.
module _ (title_before : Text → Text → Bool) where
  -- ORDER BY title ASC, id ASC.
  listed_before : ℕ × TicketRow → ℕ × TicketRow → Bool
  listed_before (i, v) (j, w) =
      if text_eq v.title w.title then ltb i j else title_before v.title w.title

  abbrev scan_row : ℕ × TicketRow → Ticket
  scan_row (id, row) = scan_ticket id row

  pub list : Db TicketsDb Error (List Ticket)
  unfolding listed_before
  list = query database (λ db. map scan_row (sort listed_before db.tickets))

-- The largest BIGINT: the version after it is out of range.
abbrev pub max_version : ℕ
max_version = 9223372036854775807

abbrev pub out_of_range : DbError
out_of_range = other 22003

abbrev pub edited_row : UpdateInput → TicketRow → TicketRow
edited_row input row = record row {
  title = input.title;
  price = input.price;
  aggregate_version = row.aggregate_version + 1;
}

-- What UPDATE … RETURNING scans: the reservation is not among the columns, and stays nil.
abbrev pub scan_edited : ℕ → TicketRow → Ticket
scan_edited id row = record (scan_ticket id row) { reserved_by_order_id = none }

-- UPDATE tickets SET title, price, aggregate_version + 1, at the row with the id.
unfoldable pub edit_row :
    ℕ → UpdateInput → TicketRow → TicketsDb → Result DbError (Option Ticket × TicketsDb)
edit_row id input row db =
    if row.aggregate_version == max_version
    then err out_of_range
    else if not (price_ok input.price)
    then err check_violation
    else ok (
      some (scan_edited id (edited_row input row)),
      record db { tickets = write id (edited_row input row) db.tickets },
    )

unfoldable pub edit_where :
    (TicketRow → Bool)
    → ℕ
    → UpdateInput
    → Option TicketRow
    → TicketsDb
    → Result DbError (Option Ticket × TicketsDb)
edit_where test id input none db = ok (none, db)
edit_where test id input (some row) db =
    if test row then edit_row id input row db else ok (none, db)

-- `ticketOwnerAndReservation`.
abbrev pub scan_owner : Option TicketRow → Option (Text × Option ℕ)
scan_owner none = none
scan_owner (some row) = some (row.user_id, row.reserved_by_order_id)

abbrev pub owner_and_reservation : ℕ → TicketsDb → Option (Text × Option ℕ)
owner_and_reservation id db = scan_owner (lookup id db.tickets)

-- `ticketUpdateError`.
pub update_error : Text → Text × Option ℕ → Error
update_error user_id (owner, reservation) =
    if not (text_eq owner user_id)
    then forbidden
    else if is_some reservation
    then reserved
    else not_found

pub update_rest : ℕ → Text → Option Ticket → Db TicketsDb Error Ticket
unfolding require update_error
update_rest id user_id (some updated) = pure updated
update_rest id user_id none = do
  row ← query database (owner_and_reservation id)
  found ← require not_found row
  raise (update_error user_id found)

-- `Update`.
pub update : ℕ → UpdateInput → Db TicketsDb Error Ticket
unfolding update_rest
update id input = do
  updated ← statement database (λ db.
      edit_where
        (λ row. text_eq row.user_id input.user_id && not (is_some row.reserved_by_order_id)) id
        input (lookup id db.tickets) db)
  update_rest id input.user_id updated

abbrev pub is_operation : ℕ → UpdateInput → OperationRow → Bool
is_operation id input row =
    row.ticket_id == id
    && text_eq row.user_id input.user_id
    && text_eq row.idempotency_key input.idempotency_key

-- The stored snapshot of an edit, by its key.
unfoldable pub find_operation : ℕ → UpdateInput → List OperationRow → Option OperationRow
find_operation id input [] = none
find_operation id input (row ∷ rows) =
    if is_operation id input row then some row else find_operation id input rows

abbrev pub scan_operation : OperationRow → Ticket
scan_operation row = record {
  id = row.ticket_id;
  title = row.title;
  price = row.price;
  user_id = row.user_id;
  aggregate_version = row.aggregate_version;
  reserved_by_order_id = none;
}

-- INSERT INTO ticket_update_operations, under its primary key.
abbrev pub operation_row : ℕ → UpdateInput → Ticket → OperationRow
operation_row id input updated = record {
  ticket_id = updated.id;
  user_id = updated.user_id;
  idempotency_key = input.idempotency_key;
  aggregate_version = updated.aggregate_version;
  title = updated.title;
  price = updated.price;
}

unfoldable pub insert_operation :
    ℕ → UpdateInput → Ticket → TicketsDb → Result DbError (Unit {0} × TicketsDb)
insert_operation id input updated db =
    if is_some (find_operation id input db.operations)
    then err unique_violation
    else if not (price_ok updated.price)
    then err check_violation
    else ok (tt, record db { operations = db.operations ++ operation_row id input updated ∷ [] })

unfoldable pub apply_edit : ℕ → UpdateInput → Option OperationRow → Db TicketsDb Error Ticket
unfolding require
apply_edit id input (some existing) = pure (scan_operation existing)
apply_edit id input none = do
  row ← statement database (λ db.
      edit_where (λ row. text_eq row.user_id input.user_id) id input (lookup id db.tickets) db)
  updated ← require (database no_rows) row
  statement database (insert_operation id input updated)
  pure updated

-- The two guards behind the row lock, in their order.
abbrev pub guard_error : Text → Text × Option ℕ → Option Error
guard_error user_id (owner, reservation) =
    if not (text_eq owner user_id)
    then some forbidden
    else if is_some reservation
    then some reserved
    else none

unfoldable pub pass_guards : Option Error → Db TicketsDb Error (Unit {0})
pass_guards none = pure tt
pass_guards (some e) = raise e

unfoldable pub edit_once : ℕ → UpdateInput → Db TicketsDb Error Ticket
unfolding require pass_guards apply_edit
edit_once id input = do
  row ← query database (owner_and_reservation id)
  found ← require not_found row
  pass_guards (guard_error input.user_id found)
  existing ← query database (λ db. find_operation id input db.operations)
  apply_edit id input existing

-- `UpdateWithIdempotency`. The row lock makes the transaction run alone on its ticket.
unfoldable pub update_with_idempotency : ℕ → UpdateInput → Db TicketsDb Error Ticket
unfolding edit_once
update_with_idempotency id input = transaction database (edit_once id input)

-- UPDATE tickets SET reserved_by_order_id = target WHERE id = $1 AND test; whether a row changed.
unfoldable pub set_reservation :
    (Option ℕ → Bool) → Option ℕ → ℕ → Option TicketRow → TicketsDb → Bool × TicketsDb
set_reservation test target id none db = (false, db)
set_reservation test target id (some row) db =
    if test row.reserved_by_order_id
    then (
      true,
      record db { tickets = write id (record row { reserved_by_order_id = target }) db.tickets },
    )
    else (false, db)

unfoldable pub free_or_own : ℕ → Option ℕ → Bool
free_or_own order_id none = true
free_or_own order_id (some holder) = holder == order_id

unfoldable pub own : ℕ → Option ℕ → Bool
own order_id none = false
own order_id (some holder) = holder == order_id

-- Behind an UPDATE that changed nothing: the error where the ticket is there, and where it is not.
unfoldable pub affected_or :
    Db TicketsDb Error (Unit {0}) → ℕ → Bool → Db TicketsDb Error (Unit {0})
unfolding require
affected_or present id true = pure tt
affected_or present id false = do
  row ← query database (owner_and_reservation id)
  require not_found row
  present

-- `ReserveForOrder`.
unfoldable pub reserve_for_order : ℕ → ℕ → Db TicketsDb Error (Unit {0})
unfolding affected_or
reserve_for_order ticket_id order_id = do
  affected ← statement database (λ db. ok (
      set_reservation (free_or_own order_id) (some order_id) ticket_id (lookup ticket_id db.tickets)
        db))
  affected_or (raise reserved) ticket_id affected

-- `ReleaseOrderReservation`.
unfoldable pub release_order_reservation : ℕ → ℕ → Db TicketsDb Error (Unit {0})
unfolding affected_or
release_order_reservation ticket_id order_id = do
  affected ←
      statement database
        (λ db. ok (set_reservation (own order_id) none ticket_id (lookup ticket_id db.tickets) db))
  affected_or (pure tt) ticket_id affected
