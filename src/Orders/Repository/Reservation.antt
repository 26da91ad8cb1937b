-- ===== src/Orders/Repository/Reservation.antt =====
-- `ReserveTicket`, branch by branch, and what its replay answers.
use mathlib.Core.Bool.{false≢true, not}
use mathlib.Core.Path.{subst}
use polyglot_ticketing_v.Base.{
  ℕ, ◌≡◌, refl, sym, ◌∙◌, true, false, none, some, [], ◌∷◌, arith, if◌then◌else◌, Bool-cases,
  Option-cases, inl, inr, text_eq, text_eq_refl, ◌&&◌, Result, ok, err,
}
use polyglot_ticketing_v.Base.Table.{
  lookup, write, lookup-write, select_first, select_first_sound, select_first_complete,
}
use polyglot_ticketing_v.Base.Db.{
  timestamptz, DbError, healthy, lost, Session, statement, query, transaction, pure_if, finish,
}
use polyglot_ticketing_v.Base.Db.Retry.{calm}
use polyglot_ticketing_v.Orders.Model.{
  Error, not_found, reserved, database, created, TicketReservationInput, ReservationResult,
  TicketRow, OrderRow, OrdersDb, is_complete,
}
use polyglot_ticketing_v.Orders.Repository.{
  scan_order, blocks, blocking_before, insert_row, reserve_ticket,
}
use polyglot_ticketing_v.Orders.Repository.Invariant.{is_blocking, IsValid}
use polyglot_ticketing_v.Orders.Repository.Exclusive.{reserve_ticket-IsValid}

-- The order holds the ticket.
pub record Holds (ticket id : ℕ) (row : OrderRow) (db : OrdersDb) : Type 0 where
  pub present : lookup id db.orders ≡ some row
  pub on_ticket : row.ticket_id ≡ ticket
  pub blocking : is_blocking row.status ≡ true

blocks_iff :
    (ticket id : ℕ) (row : OrderRow)
    → row.ticket_id ≡ ticket
    → is_blocking row.status ≡ true
    → blocks ticket id row ≡ true
unfolding blocks
blocks_iff ticket id row same b = ground arith

pub blocks-parts :
    (ticket id : ℕ) (row : OrderRow)
    → blocks ticket id row ≡ true
    → (row.ticket_id ≡ ticket) × (is_blocking row.status ≡ true)
unfolding blocks
blocks-parts ticket id row h = ground arith

-- The search finds the one order that holds the ticket.
pub select-held :
    (ticket id : ℕ) (row : OrderRow) (db : OrdersDb)
    → IsValid db
    → Holds ticket id row db
    → select_first (blocks ticket) blocking_before db.orders ≡ some (id, row)
select-held ticket id row db valid h =
    elim (Option-cases (select_first (blocks ticket) blocking_before db.orders)) [
      | inl nothing ↦ absurd (
          false≢true (
            sym (
              select_first_complete (blocks ticket) blocking_before db.orders id row nothing
                h.present)
            ∙ blocks_iff ticket id row h.on_ticket h.blocking))
      | inr ((j, w), found) ↦
          let (passes, at) =
            select_first_sound (blocks ticket) blocking_before db.orders j w valid.orders_keyed
              found in
          let (same, holds) = blocks-parts ticket j w passes in
          let one : j ≡ id =
            valid.exclusive j id w row at h.present holds h.blocking (same ∙ sym h.on_ticket) in
          found ∙ ground arith
    ]

-- No order holds the ticket.
abbrev pub IsUnheld : ℕ → OrdersDb → Type 0
IsUnheld ticket db =
    (id : ℕ) (row : OrderRow)
    → lookup id db.orders ≡ some row
    → row.ticket_id ≡ ticket
    → is_blocking row.status ≡ false

select-unheld :
    (ticket : ℕ) (db : OrdersDb)
    → IsValid db
    → IsUnheld ticket db
    → select_first (blocks ticket) blocking_before db.orders ≡ none
select-unheld ticket db valid free =
    elim (Option-cases (select_first (blocks ticket) blocking_before db.orders)) [
      | inl nothing ↦ nothing
      | inr ((j, w), found) ↦
          let (passes, at) =
            select_first_sound (blocks ticket) blocking_before db.orders j w valid.orders_keyed
              found in
          let (same, holds) = blocks-parts ticket j w passes in
          absurd (false≢true (sym (free j w at same) ∙ holds))
    ]

-- What the caller of a held ticket is answered: the order, if it is the caller's own and is not paid.
abbrev pub held_answer : TicketReservationInput → ℕ → OrderRow → Result Error ReservationResult
held_answer input id row =
    if text_eq row.user_id input.user_id && not (is_complete row.status)
    then ok (record { created = false; order = scan_order id row })
    else err reserved

-- In valid tables, if nothing goes wrong and an order holds a ticket that is projected, then its
-- owner is given that order while it is not complete, everyone else and the owner of a complete one
-- are told that the ticket is reserved, and nothing changes.
pub reserve_ticket-held :
    (random_id id : ℕ) (input : TicketReservationInput) (row : OrderRow) (ticket : TicketRow)
    (db : OrdersDb)
    → IsValid db
    → lookup input.ticket_id db.tickets ≡ some ticket
    → Holds input.ticket_id id row db
    → reserve_ticket random_id input (calm db) ≡ (held_answer input id row, calm db)
unfolding reserve_ticket transaction statement query pure_if finish
reserve_ticket-held random_id id input row ticket db valid known h = rw known (
    rw (select-held input.ticket_id id row db valid h)
      (elim (Bool-cases (text_eq row.user_id input.user_id && not (is_complete row.status))) [
        | inl own ↦ rw own
        | inr other ↦ rw other
      ]))

-- If nothing goes wrong, then for a ticket that is not projected the answer is that it is not
-- found, and nothing changes.
pub reserve_ticket-unknown :
    (random_id : ℕ) (input : TicketReservationInput) (db : OrdersDb)
    → lookup input.ticket_id db.tickets ≡ none
    → reserve_ticket random_id input (calm db) ≡ (err not_found, calm db)
unfolding reserve_ticket transaction statement query finish
reserve_ticket-unknown random_id input db unknown = rw unknown

-- The new order's row; its deadline is kept in whole microseconds.
abbrev pub new_row : TicketReservationInput → OrderRow
new_row input = record {
  expires_at = timestamptz input.expires_at;
  user_id = input.user_id;
  ticket_id = input.ticket_id;
  status = created;
}

-- The tables with the new order.
abbrev pub with_order : ℕ → TicketReservationInput → OrdersDb → OrdersDb
with_order id input db = record db { orders = write id (new_row input) db.orders }

module _ (id : ℕ) (input : TicketReservationInput) (ticket : TicketRow) (db : OrdersDb)
    (valid : IsValid db) (known : lookup input.ticket_id db.tickets ≡ some ticket)
    (free : IsUnheld input.ticket_id db) (unused : lookup id db.orders ≡ none)
    (named : input.order_id ≡ some id) where
  -- In valid tables, if nothing goes wrong and no order holds a ticket that is projected, an order
  -- under the given, unused id is created on it for the caller, with the deadline cut down to whole
  -- microseconds, and nothing else changes.
  pub reserve_ticket-free :
      (random_id : ℕ)
      → reserve_ticket random_id input (calm db) ≡ (
        ok (record { created = true; order = scan_order id (new_row input) }),
        calm (with_order id input db),
      )
  unfolding reserve_ticket transaction statement query finish insert_row
  reserve_ticket-free random_id =
      rw known (rw (select-unheld input.ticket_id db valid free) (rw named (rw (unused, known))))

  abbrev commit_lost : DbError → Session OrdersDb
  commit_lost e = record {
    tables = db;
    faults = healthy ∷ healthy ∷ healthy ∷ healthy ∷ lost e ∷ [];
  }

  -- An attempt whose commit goes through with its answer lost.
  reserve_ticket-commit_lost :
      (random_id : ℕ) (e : DbError)
      → reserve_ticket random_id input (commit_lost e)
        ≡ (err (database e), calm (with_order id input db))
  unfolding reserve_ticket transaction statement query finish insert_row
  reserve_ticket-commit_lost random_id e =
      rw known (rw (select-unheld input.ticket_id db valid free) (rw named (rw (unused, known))))

  new_order-Holds : Holds input.ticket_id id (new_row input) (with_order id input db)
  new_order-Holds = record {
    present = ground (arith, lookup-write id id (new_row input) db.orders);
    on_ticket = refl;
    blocking = refl;
  }

  -- In valid tables, on a projected ticket that no order holds and under a given, unused id: where
  -- the answer of the commit is lost, the next attempt finds the order that the first one made, with
  -- the deadline cut down to whole microseconds, and reports that nothing was created.
  pub reserve_ticket_retried :
      (random_id : ℕ) (e : DbError)
      → reserve_ticket random_id input (reserve_ticket random_id input (commit_lost e)).1 ≡ (
        ok (record { created = false; order = scan_order id (new_row input) }),
        calm (with_order id input db),
      )
  reserve_ticket_retried random_id e =
      let valid' : IsValid (with_order id input db) =
        subst (λ x. IsValid x.1.tables) (reserve_ticket-commit_lost random_id e)
          ((reserve_ticket-IsValid random_id input).holds (commit_lost e) valid) in
      rw (reserve_ticket-commit_lost random_id e) (
        reserve_ticket-held random_id id input (new_row input) ticket (with_order id input db)
          valid' known new_order-Holds
        ∙ rw (text_eq_refl input.user_id))
