-- ===== src/Orders/Projection/Kept.antt =====
-- The projection keeps the invariant of the tables of Orders, and leaves the orders alone.
use polyglot_ticketing_v.Base.{
  ℕ, Bool, true, false, Option, none, some, arith, Bool-cases, inl, inr,
}
use polyglot_ticketing_v.Base.Table.{lookup, write, lookup-write, write-IsKeyed}
use polyglot_ticketing_v.Base.Db.Keeps.{
  Keeps, Written, Keeps-pure, Keeps-pure_if, Keeps-raise, keeps_bind, Keeps-statement, Keeps-query,
}
use polyglot_ticketing_v.Orders.Model.{database, Ticket, TicketRow, OrdersDb}
use polyglot_ticketing_v.Orders.Projection.{
  ticket_row, checks, applies, upsert, compare_found, projection_rest, ensure_ticket_projection,
}
use polyglot_ticketing_v.Orders.Repository.Invariant.{IsValid}
use polyglot_ticketing_v.Orders.Repository.Evolves.{Evolves}

-- Writing a ticket leaves every order's ticket projected.
write-IsValid_ticket :
    (id : ℕ) (row : TicketRow) (db : OrdersDb)
    → IsValid db
    → IsValid (record db { tickets = write id row db.tickets })
write-IsValid_ticket id row db valid = record {
  tickets_keyed = write-IsKeyed id row db.tickets valid.tickets_keyed;
  orders_keyed = valid.orders_keyed;
  referenced =
      λ i v e. ground (arith, lookup-write v.ticket_id id row db.tickets, valid.referenced i v e);
  exclusive = valid.exclusive;
}

module _ (I : OrdersDb → Type 0) where
  compare_found-Keeps :
      (input : Ticket) (existing : Option TicketRow) → Keeps I (compare_found input existing)
  unfolding compare_found
  compare_found-Keeps input none = Keeps-raise I _
  compare_found-Keeps input (some existing) = Keeps-pure_if I _ _ _

  projection_rest-Keeps :
      (input : Ticket) (affected : Bool) → Keeps I (projection_rest input affected)
  unfolding projection_rest
  projection_rest-Keeps input true = Keeps-pure I tt
  projection_rest-Keeps input false =
      keeps_bind I (Keeps-query I database _) (compare_found-Keeps input)

  -- The projection keeps what its upsert keeps.
  pub ensure_ticket_projection-Keeps :
      (input : Ticket)
      → ((db : OrdersDb) → I db → Written I (upsert input db))
      → Keeps I (ensure_ticket_projection input)
  unfolding ensure_ticket_projection
  ensure_ticket_projection-Keeps input h =
      keeps_bind I (Keeps-statement I database (upsert input) h) (projection_rest-Keeps input)

  -- The upsert keeps what writing the ticket's row keeps.
  pub upsert-Keeps :
      (input : Ticket) (db : OrdersDb)
      → I (record db { tickets = write input.id (ticket_row input) db.tickets })
      → I db
      → Written I (upsert input db)
  unfolding upsert
  upsert-Keeps input db written h = elim (Bool-cases (checks (ticket_row input))) [
    | inr refused ↦ rw refused tt
    | inl passed ↦ elim (Bool-cases (applies input (lookup input.id db.tickets))) [
      | inl due ↦ rw (passed, due) written
      | inr other ↦ rw (passed, other) h
    ]
  ]

-- Whatever goes wrong, the projection keeps the invariant of the tables.
pub ensure_ticket_projection-IsValid :
    (input : Ticket) → Keeps IsValid (ensure_ticket_projection input)
ensure_ticket_projection-IsValid input = ensure_ticket_projection-Keeps IsValid input λ db valid.
    upsert-Keeps IsValid input db (write-IsValid_ticket input.id (ticket_row input) db valid) valid

-- The projection leaves the orders alone.
pub ensure_ticket_projection-Evolves :
    (before : OrdersDb) (input : Ticket) → Keeps (Evolves before) (ensure_ticket_projection input)
ensure_ticket_projection-Evolves before input =
    ensure_ticket_projection-Keeps (Evolves before) input
      λ db h. upsert-Keeps (Evolves before) input db (record { continues = h.continues }) h
