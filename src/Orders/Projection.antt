-- ===== src/Orders/Projection.antt =====
-- apps/orders/internal/order/projection.go: the copy of the tickets that Orders keeps.
pub mod Kept
pub mod Versions
pub mod Ahead
pub mod Next
use polyglot_ticketing_v.Base.{
  ℕ, [], Bool, true, false, not, ◌&&◌, Option, none, some, Text, text_eq, trim_space, if◌then◌else◌,
  Result, ok, err,
}
use polyglot_ticketing_v.Base.Int.{ℤ, pos, leb_ℤ, ltb_ℤ, eqb_ℤ, pred_ℤ}
use polyglot_ticketing_v.Base.Table.{lookup, write}
use polyglot_ticketing_v.Base.Db.{
  DbError, check_violation, no_rows, Db, pure, pure_if, raise, ◌>>=◌, statement, query,
}
use polyglot_ticketing_v.Orders.Model.{
  Error, projection_conflict, projection_out_of_order, database, Ticket, TicketRow, OrdersDb,
}

abbrev pub ticket_row : Ticket → TicketRow
ticket_row input = record {
  title = input.title;
  price = input.price;
  aggregate_version = input.aggregate_version;
}

-- The CHECK constraints of `tickets`.
unfoldable pub checks : TicketRow → Bool
checks row = ltb_ℤ (pos 0) row.price && leb_ℤ (pos 1) row.aggregate_version

-- The row may be written: there is none, or it is at the version before.
unfoldable pub applies : Ticket → Option TicketRow → Bool
applies input none = true
applies input (some existing) = eqb_ℤ existing.aggregate_version (pred_ℤ input.aggregate_version)

-- INSERT … ON CONFLICT (id) DO UPDATE … WHERE …, which answers whether it affected a row.
-- PostgreSQL checks the proposed row before it looks for the conflict.
unfoldable pub upsert : Ticket → OrdersDb → Result DbError (Bool × OrdersDb)
upsert input db =
    if not (checks (ticket_row input))
    then err check_violation
    else if applies input (lookup input.id db.tickets)
    then ok (true, record db { tickets = write input.id (ticket_row input) db.tickets })
    else ok (false, db)

-- The refused row is the one that is there, or else its version says why it was refused.
pub compare_projection : Ticket → TicketRow → Db OrdersDb Error (Unit {0})
compare_projection input existing =
    pure_if
      (eqb_ℤ existing.aggregate_version input.aggregate_version
        && text_eq existing.title input.title
        && eqb_ℤ existing.price input.price)
      tt
      (if ltb_ℤ existing.aggregate_version input.aggregate_version
        then projection_out_of_order
        else projection_conflict)

pub compare_found : Ticket → Option TicketRow → Db OrdersDb Error (Unit {0})
unfolding compare_projection
compare_found input none = raise (database no_rows)
compare_found input (some existing) = compare_projection input existing

unfoldable pub projection_rest : Ticket → Bool → Db OrdersDb Error (Unit {0})
unfolding compare_found
projection_rest input true = pure tt
projection_rest input false = do
  existing ← query database (λ db. lookup input.id db.tickets)
  compare_found input existing

unfoldable pub ensure_ticket_projection : Ticket → Db OrdersDb Error (Unit {0})
unfolding projection_rest upsert
ensure_ticket_projection input = do
  affected ← statement database (upsert input)
  projection_rest input affected

-- 2 ^ 53 - 1.
abbrev pub max_price : ℤ
max_price = pos 9007199254740991

-- `ValidateProjection`; an id that `uuid.Parse` accepts is given by its value.
unfoldable pub validate_projection : (Text → Option ℕ) → Text → Ticket → Bool
validate_projection uuid_parse id input = elim (uuid_parse id) [
  | none ↦ false
  | some _ ↦
      not (text_eq (trim_space input.title) [])
      && ltb_ℤ (pos 0) input.price
      && leb_ℤ input.price max_price
      && leb_ℤ (pos 1) input.aggregate_version
]
