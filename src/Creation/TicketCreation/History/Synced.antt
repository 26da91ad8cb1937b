-- ===== src/Creation/TicketCreation/History/Synced.antt =====
-- The copies of tickets that Orders has are of what Tickets has recorded: what a call keeps of that.
use mathlib.Core.Path.{subst}
use polyglot_ticketing_v.Base.{
  ℕ, ◌≡◌, refl, List, some, Result, ok, err, Bool-cases, inl, inr, ◌==◌, arith,
}
use polyglot_ticketing_v.Base.Int.{pos}
use polyglot_ticketing_v.Base.Table.{lookup, write, lookup-write}
use polyglot_ticketing_v.Base.Db.{Fault, Session, Db}
use polyglot_ticketing_v.Base.Db.Keeps.{Keeps}
use polyglot_ticketing_v.Base.Db.Answers.{Good, Answers}
use polyglot_ticketing_v.World.{World, on_orders, on_tickets}
use polyglot_ticketing_v.Orders.Model.{OrdersDb}
use polyglot_ticketing_v.Orders.Model as Orders
use polyglot_ticketing_v.Tickets.Model.{Ticket, TicketsDb}
use polyglot_ticketing_v.Tickets.Repository.Recorded.{
  Recorded, TicketRecorded, Onward, Draft, IsRecorded, From,
}
use polyglot_ticketing_v.Reservation.Later.{Holding}

-- Every copy that Orders has of a ticket is a version that Tickets has recorded.
pub record IsCopied (tickets : TicketsDb) (orders : OrdersDb) : Type 0 where
  pub copies :
      (id : ℕ) (copy : Orders.TicketRow)
      → lookup id orders.tickets ≡ some copy
      → (version : ℕ) × (copy.aggregate_version ≡ pos version)
        × Recorded id version copy.title copy.price tickets

module _ (tickets : TicketsDb) (t : Ticket) (now : TicketRecorded t tickets) where
  pub write-IsCopied :
      (db : OrdersDb)
      → IsCopied tickets db
      → IsCopied tickets (record db {
        tickets =
            write t.id
              (record {
                title = t.title;
                price = t.price;
                aggregate_version = pos t.aggregate_version;
              })
              db.tickets;
      })
  write-IsCopied db h =
      let row : Orders.TicketRow = record {
        title = t.title;
        price = t.price;
        aggregate_version = pos t.aggregate_version;
      } in
      record {
        copies = λ id copy e. elim (Bool-cases (id == t.id)) [
          | inr other ↦ h.copies id copy (ground (arith, lookup-write id t.id row db.tickets))
          | inl same ↦
              let was : row ≡ copy = ground (arith, lookup-write id t.id row db.tickets) in
              let at : t.id ≡ id = ground arith in
              subst
                (λ (x : Orders.TicketRow).
                  (version : ℕ) × (x.aggregate_version ≡ pos version)
                  × Recorded id version x.title x.price tickets)
                was
                (
                  t.aggregate_version,
                  refl,
                  subst (λ i. Recorded i t.aggregate_version t.title t.price tickets) at now,
                )
        ];
      }

-- Copies are of what is still recorded.
pub IsCopied-Onward :
    (a b : TicketsDb) (orders : OrdersDb) → Onward a b → IsCopied a orders → IsCopied b orders
IsCopied-Onward a b orders on h = record {
  copies = λ id copy e.
      let (version, at, was) = h.copies id copy e in (version, at, on id version _ _ was);
}

module _ (origin : ℕ → Draft) where
  -- Tickets has recorded its versions, and Orders has copies of those.
  pub record Synced (w : World) : Type 0 where
    pub recorded : IsRecorded origin w.tickets
    pub copied : IsCopied w.tickets w.orders

  -- It still is so, and what Tickets had recorded it has.
  pub record Kept (w w' : World) : Type 0 where
    pub synced : Synced w'
    pub onward : Onward w.tickets w'.tickets

  pub Kept-refl : (w : World) → Synced w → Kept w w
  Kept-refl w h = record { synced = h; onward = λ i v t p r. r }

  -- An attempt, with what it answers where it goes well.
  abbrev pub Attempted :
      {E A : Type 0} → (A → World → Type 0) → World → Result E A × Session World → Type 0
  Attempted Q w r = Kept w r.1.tables × Holding Q r

  From-Kept :
      (w : World) (t : TicketsDb)
      → Synced w
      → From origin w.tickets t
      → Kept w (record w { tickets = t })
  From-Kept w t h from = record {
    synced = record {
      recorded = from.recorded;
      copied = IsCopied-Onward w.tickets t w.orders from.onward h.copied;
    };
    onward = from.onward;
  }

  module _ {E A : Type 0} (Q : A → TicketsDb → Type 0) where
    Good-Attempted :
        (w : World) (r : Result E A) (t : TicketsDb) (faults : List Fault)
        → Synced w
        → Good (From origin w.tickets) Q r t
        → Attempted
            (λ a w. Q a w.tickets)
            w
            (r, record { tables = record w { tickets = t }; faults = faults })
    Good-Attempted w (ok a) t faults h (from, q) = (From-Kept w t h from, q)
    Good-Attempted w (err e) t faults h from = (From-Kept w t h from, tt)

    pub on_tickets-Attempted :
        (call : Db TicketsDb E A) (s : Session World)
        → Answers (From origin s.tables.tickets) call Q
        → Synced s.tables
        → Attempted (λ a w. Q a w.tickets) s.tables (on_tickets call s)
    on_tickets-Attempted call s h synced =
        Good-Attempted s.tables _ _ _ synced
          (h.holds _ (record { recorded = synced.recorded; onward = λ i v t p r. r }))

  -- A call of Tickets or of Orders by itself.
  pub on_tickets-Kept :
      {E A : Type 0} (call : Db TicketsDb E A) (s : Session World)
      → Keeps (From origin s.tables.tickets) call
      → Synced s.tables
      → Kept s.tables (on_tickets call s).1.tables
  on_tickets-Kept call s h synced =
      From-Kept s.tables _ synced
        (h.holds _ (record { recorded = synced.recorded; onward = λ i v t p r. r }))

  pub on_orders-Kept :
      {E A : Type 0} (call : Db OrdersDb E A) (s : Session World)
      → Keeps (IsCopied s.tables.tickets) call
      → Synced s.tables
      → Kept s.tables (on_orders call s).1.tables
  on_orders-Kept call s h synced = record {
    synced = record { recorded = synced.recorded; copied = h.holds _ synced.copied };
    onward = λ i v t p r. r;
  }
