-- ===== src/Orders/History.antt =====
-- Histories of the Orders tables: the calls of `OrderRepository` and of the projection that the
-- service makes, in any order, each with whatever goes wrong in it.
pub mod Holder
use mathlib.Core.Option.{none-ne-some}
use polyglot_ticketing_v.Base.{ℕ, ◌≡◌, true, some, List, [], ◌∷◌, Text}
use polyglot_ticketing_v.Base.Table.{lookup}
use polyglot_ticketing_v.Base.Db.{Fault, Session}
use polyglot_ticketing_v.Orders.Model.{
  PaymentOutcome, TicketReservationInput, Ticket, OrderRow, OrdersDb,
}
use polyglot_ticketing_v.Orders.Repository.{
  reserve_ticket, expire_created_order, start_payment, resolve_payment, cancel_by_id_and_user,
}
use polyglot_ticketing_v.Orders.Projection.{ensure_ticket_projection}
use polyglot_ticketing_v.Orders.Repository.Invariant.{is_blocking, IsValid}
use polyglot_ticketing_v.Orders.Repository.Exclusive.{
  reserve_ticket-IsValid, expire_created_order-IsValid, start_payment-IsValid,
  resolve_payment-IsValid, cancel_by_id_and_user-IsValid,
}
use polyglot_ticketing_v.Orders.Repository.Evolves.{Continues, Evolves, Evolves-refl, Evolves-trans}
use polyglot_ticketing_v.Orders.Repository.Transitions.{
  reserve_ticket-Evolves, expire_created_order-Evolves, start_payment-Evolves,
  resolve_payment-Evolves, cancel_by_id_and_user-Evolves,
}
use polyglot_ticketing_v.Orders.Projection.Kept.{
  ensure_ticket_projection-IsValid, ensure_ticket_projection-Evolves,
}

-- The writing methods of `OrderRepository`, with NOW() and gen_random_uuid() where they are used.
pub data Call : Type 0 where
  reserve : ℕ → TicketReservationInput → Call
  expire : ℕ → ℕ → Call
  start : ℕ → Text → Call
  resolve : ℕ → PaymentOutcome → Call
  cancel : ℕ → Text → Call
  project : Ticket → Call

-- The tables that a call leaves.
unfoldable pub run_call : Call → Session OrdersDb → OrdersDb
run_call (reserve random_id input) s = (reserve_ticket random_id input s).1.tables
run_call (expire now id) s = (expire_created_order now id s).1.tables
run_call (start id user) s = (start_payment id user s).1.tables
run_call (resolve id outcome) s = (resolve_payment id outcome s).1.tables
run_call (cancel id user) s = (cancel_by_id_and_user id user s).1.tables
run_call (project ticket) s = (ensure_ticket_projection ticket s).1.tables

abbrev pub History : Type 0
History = List (Call × List Fault)

unfoldable pub run : History → OrdersDb → OrdersDb
run [] db = db
run ((call, faults) ∷ rest) db = run rest (run_call call (record { tables = db; faults = faults }))

abbrev pub no_rows_yet : OrdersDb
no_rows_yet = record { tickets = []; orders = [] }

pub run_call-IsValid :
    (call : Call) (s : Session OrdersDb) → IsValid s.tables → IsValid (run_call call s)
unfolding run_call
run_call-IsValid (reserve random_id input) s = (reserve_ticket-IsValid random_id input).holds s
run_call-IsValid (expire now id) s = (expire_created_order-IsValid now id).holds s
run_call-IsValid (start id user) s = (start_payment-IsValid id user).holds s
run_call-IsValid (resolve id outcome) s = (resolve_payment-IsValid id outcome).holds s
run_call-IsValid (cancel id user) s = (cancel_by_id_and_user-IsValid id user).holds s
run_call-IsValid (project ticket) s = (ensure_ticket_projection-IsValid ticket).holds s

-- Any history keeps the invariant of the tables: unique keys, every order on a projected ticket,
-- and at most one order that holds a ticket.
pub run-IsValid : (h : History) (db : OrdersDb) → IsValid db → IsValid (run h db)
unfolding run
run-IsValid [] db valid = valid
run-IsValid ((call, faults) ∷ rest) db valid =
    let s : Session OrdersDb = record { tables = db; faults = faults } in
    run-IsValid rest (run_call call s) (run_call-IsValid call s valid)

pub no_rows_yet-IsValid : IsValid no_rows_yet
unfolding lookup
no_rows_yet-IsValid = record {
  tickets_keyed = tt;
  orders_keyed = tt;
  referenced = λ id row e. absurd (none-ne-some row e);
  exclusive = λ i j v w e. absurd (none-ne-some v e);
}

-- From tables without rows, whatever is called and whatever goes wrong, no two orders hold one
-- ticket: two orders on it that are not canceled are the same one.
pub run_exclusive :
    (h : History) (i j : ℕ) (v w : OrderRow)
    → lookup i (run h no_rows_yet).orders ≡ some v
    → lookup j (run h no_rows_yet).orders ≡ some w
    → is_blocking v.status ≡ true
    → is_blocking w.status ≡ true
    → v.ticket_id ≡ w.ticket_id
    → i ≡ j
run_exclusive h = (run-IsValid h no_rows_yet no_rows_yet-IsValid).exclusive

pub run_call-Evolves : (call : Call) (s : Session OrdersDb) → Evolves s.tables (run_call call s)
unfolding run_call
run_call-Evolves (reserve random_id input) s =
    (reserve_ticket-Evolves s.tables random_id input).holds s (Evolves-refl s.tables)
run_call-Evolves (expire now id) s =
    (expire_created_order-Evolves s.tables now id).holds s (Evolves-refl s.tables)
run_call-Evolves (start id user) s =
    (start_payment-Evolves s.tables id user).holds s (Evolves-refl s.tables)
run_call-Evolves (resolve id outcome) s =
    (resolve_payment-Evolves s.tables id outcome).holds s (Evolves-refl s.tables)
run_call-Evolves (cancel id user) s =
    (cancel_by_id_and_user-Evolves s.tables id user).holds s (Evolves-refl s.tables)
run_call-Evolves (project ticket) s =
    (ensure_ticket_projection-Evolves s.tables ticket).holds s (Evolves-refl s.tables)

run-Evolves : (h : History) (db : OrdersDb) → Evolves db (run h db)
unfolding run
run-Evolves [] db = Evolves-refl db
run-Evolves ((call, faults) ∷ rest) db =
    let s : Session OrdersDb = record { tables = db; faults = faults } in
    Evolves-trans db (run_call call s) (run rest (run_call call s)) (run_call-Evolves call s)
      (run-Evolves rest (run_call call s))

-- Whatever is called and whatever goes wrong, an order that is there stays there, keeps its owner,
-- ticket and deadline, and its status only moves on: from Created to any other, from
-- AwaitingPayment to Canceled or Complete, and from those two to no other.
pub run-Continues :
    (h : History) (db : OrdersDb) (id : ℕ) (row : OrderRow)
    → lookup id db.orders ≡ some row
    → (row' : OrderRow) × (lookup id (run h db).orders ≡ some row') × Continues row row'
run-Continues h db = (run-Evolves h db).continues
