-- ===== src/Tickets/Repository/Free.antt =====
-- `ReserveForOrder` and `ReleaseOrderReservation` where nothing goes wrong and the ticket is in the
-- state that each is meant for.
use polyglot_ticketing_v.Base.{ℕ, ◌≡◌, refl, Option, none, some, ok, ==_iff}
use polyglot_ticketing_v.Base.Table.{lookup, write}
use polyglot_ticketing_v.Base.Db.{statement}
use polyglot_ticketing_v.Base.Db.Retry.{calm}
use polyglot_ticketing_v.Tickets.Model.{TicketRow, TicketsDb}
use polyglot_ticketing_v.Tickets.Repository.{
  set_reservation, free_or_own, own, affected_or, reserve_for_order, release_order_reservation,
}

-- The tables with the ticket's claim set or cleared.
abbrev pub with_claim : ℕ → TicketRow → Option ℕ → TicketsDb → TicketsDb
with_claim ticket row claim db = record db {
  tickets = write ticket (record row { reserved_by_order_id = claim }) db.tickets;
}

module _ (ticket order : ℕ) (row : TicketRow) (db : TicketsDb)
    (there : lookup ticket db.tickets ≡ some row) where
  pub reserve_for_order-free :
      row.reserved_by_order_id ≡ none
      → reserve_for_order ticket order (calm db)
        ≡ (ok tt, calm (with_claim ticket row (some order) db))
  unfolding reserve_for_order statement set_reservation free_or_own affected_or
  reserve_for_order-free free = rw there (rw free)

  pub release_order_reservation-own :
      row.reserved_by_order_id ≡ some order
      → release_order_reservation ticket order (calm db)
        ≡ (ok tt, calm (with_claim ticket row none db))
  unfolding release_order_reservation statement set_reservation own affected_or
  release_order_reservation-own held = rw there (rw held (rw ((==_iff order order).1 refl)))
