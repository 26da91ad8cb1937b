-- ===== src/Creation/TicketCreation/UpdateWorkflow/Others.antt =====
-- What others do meanwhile: claims and releases of tickets, and the calls of Orders.
use polyglot_ticketing_v.Base.{
  ℕ, ◌≡◌, refl, ap, ◌∙◌, List, Option, some, Text, Bool-cases, inl, inr, ◌==◌, arith,
}
use polyglot_ticketing_v.Base.Table.{Table, lookup, lookup-write}
use polyglot_ticketing_v.Base.Db.{Fault, Session, Db}
use polyglot_ticketing_v.Base.Db.Keeps.{Keeps}
use polyglot_ticketing_v.World.{World, on_orders, on_tickets}
use polyglot_ticketing_v.Orders.Model.{PaymentOutcome, TicketReservationInput, OrderRow, OrdersDb}
use polyglot_ticketing_v.Orders.Repository.{
  reserve_ticket, expire_created_order, start_payment, resolve_payment, cancel_by_id_and_user,
}
use polyglot_ticketing_v.Orders.Repository.Copies.{
  reserve_ticket-Keeps, expire_created_order-Keeps, start_payment-Keeps, resolve_payment-Keeps,
  cancel_by_id_and_user-Keeps,
}
use polyglot_ticketing_v.Tickets.Model.{TicketRow, TicketsDb}
use polyglot_ticketing_v.Tickets.Repository.{reserve_for_order, release_order_reservation}
use polyglot_ticketing_v.Tickets.Repository.Recorded.{Draft}
use polyglot_ticketing_v.Tickets.Repository.Rows.{
  KeptByClaims, reserve_for_order-Keeps, release_order_reservation-Keeps,
}
use polyglot_ticketing_v.Tickets.Repository.Snapshots.{From-KeptByClaims}
use polyglot_ticketing_v.Creation.TicketCreation.History.Synced.{
  IsCopied, Synced, on_tickets-Kept, on_orders-Kept,
}
use polyglot_ticketing_v.Payments.Model.{PaymentsDb}
use polyglot_ticketing_v.Creation.TicketCreation.History.{Event, idle, run}
use polyglot_ticketing_v.Creation.TicketCreation.History.Copies.{nothing_yet, run-Synced}
use polyglot_ticketing_v.Creation.TicketCreation.UpdateWorkflow.Stages.{copy_of}
use polyglot_ticketing_v.Creation.TicketCreation.UpdateWorkflow.Steps.{Elsewhere}

-- The ticket is there, and as Orders would copy it.
abbrev IsShown : ℕ → TicketRow → TicketsDb → Type 0
IsShown ticket row db =
    (row' : TicketRow) × (lookup ticket db.tickets ≡ some row') × (copy_of row' ≡ copy_of row)

IsShown-KeptByClaims : (ticket : ℕ) (row : TicketRow) → KeptByClaims (IsShown ticket row)
IsShown-KeptByClaims ticket row id target old db found (now, there, same) =
    elim (Bool-cases (ticket == id)) [
      | inr other ↦ (
        now,
        ground (
          arith,
          lookup-write ticket id (record old { reserved_by_order_id = target }) db.tickets,
        ),
        same,
      )
      | inl one ↦
          let was : old ≡ now = ground (arith, there, found) in
          (
            record old { reserved_by_order_id = target },
            ground (
              arith,
              lookup-write ticket id (record old { reserved_by_order_id = target }) db.tickets,
            ),
            ap copy_of was ∙ same,
          )
    ]

module _ (uuid_parse : Text → Option ℕ) (uuid_text : ℕ → Text) (origin : ℕ → Draft) (ticket : ℕ)
    (w : World) (synced : Synced origin w) (faults : List Fault) where
  abbrev start : Session World
  start = record { tables = w; faults = faults }

  abbrev IsElsewhere : {E A : Type 0} → Db World E A → Type 0
  IsElsewhere call = Elsewhere uuid_parse uuid_text origin ticket w (call start).1.tables

  tickets-Elsewhere :
      {E A : Type 0} (call : Db TicketsDb E A)
      → ((I : TicketsDb → Type 0) → KeptByClaims I → Keeps I call)
      → IsElsewhere (on_tickets call)
  tickets-Elsewhere call keeps = record {
    kept = on_tickets-Kept origin call start (keeps _ (From-KeptByClaims origin w.tickets)) synced;
    same_row = λ row there.
        (keeps (IsShown ticket row) (IsShown-KeptByClaims ticket row)).holds _ (row, there, refl);
    same_copy = refl;
  }

  orders-Elsewhere :
      {E A : Type 0} (call : Db OrdersDb E A)
      → ((I : OrdersDb → Type 0)
          → ((orders : Table OrderRow) (db : OrdersDb) → I db → I (record db { orders = orders }))
          → Keeps I call)
      → IsElsewhere (on_orders call)
  orders-Elsewhere call keeps = record {
    kept =
        on_orders-Kept origin call start
          (keeps (IsCopied w.tickets) (λ orders db h. record { copies = h.copies })) synced;
    same_row = λ row there. (row, there, refl);
    same_copy =
        let kept =
          keeps (λ db. lookup ticket db.tickets ≡ lookup ticket w.orders.tickets)
            (λ orders db h. h) in
        kept.holds _ refl;
  }

-- A call of each kind that others make.
pub record Others : Type 0 where
  pub id : ℕ
  pub order : ℕ
  pub now : ℕ
  pub input : TicketReservationInput
  pub user : Text
  pub outcome : PaymentOutcome
  pub faults : List Fault

module _ (uuid_parse : Text → Option ℕ) (uuid_text : ℕ → Text) (origin : ℕ → Draft)
    (ticket : ℕ) where
  -- Each of them is a step of others.
  abbrev pub EachElsewhere : World → Others → Type 0
  EachElsewhere w o =
      let s : Session World = record { tables = w; faults = o.faults } in
      let Leaves : World → Type 0 = λ u. Elsewhere uuid_parse uuid_text origin ticket w u in
      Leaves (on_tickets (reserve_for_order o.id o.order) s).1.tables
      × Leaves (on_tickets (release_order_reservation o.id o.order) s).1.tables
      × Leaves (on_orders (reserve_ticket o.id o.input) s).1.tables
      × Leaves (on_orders (expire_created_order o.now o.order) s).1.tables
      × Leaves (on_orders (start_payment o.order o.user) s).1.tables
      × Leaves (on_orders (resolve_payment o.order o.outcome) s).1.tables
      × Leaves (on_orders (cancel_by_id_and_user o.order o.user) s).1.tables

module _ (uuid_parse : Text → Option ℕ) (uuid_text : ℕ → Text)
    (uuid_law : (id : ℕ) → uuid_parse (uuid_text id) ≡ some id) (origin : ℕ → Draft)
    (ticket : ℕ) where
  -- If UUIDs go through their texts unchanged: behind any history of the tickets, whatever goes wrong, a
  -- claim or a release of any ticket and each call of Orders' repository is one of the steps of others
  -- that a workflow of updates allows: it leaves the title, the price and the version of every ticket's
  -- row at Tickets, and every copy at Orders, as they are.
  pub calls-Elsewhere :
      (payments : PaymentsDb) (es : List Event) (o : Others)
      → EachElsewhere uuid_parse uuid_text origin ticket
          (run uuid_parse uuid_text origin es (idle (nothing_yet payments))).world
          o
  calls-Elsewhere payments es o =
      let w = (run uuid_parse uuid_text origin es (idle (nothing_yet payments))).world in
      let synced = run-Synced uuid_parse uuid_text uuid_law origin payments es in
      (
        tickets-Elsewhere uuid_parse uuid_text origin ticket w synced o.faults
            (reserve_for_order o.id o.order)
            (λ I kept. reserve_for_order-Keeps I kept o.id o.order),
        tickets-Elsewhere uuid_parse uuid_text origin ticket w synced o.faults
            (release_order_reservation o.id o.order)
            (λ I kept. release_order_reservation-Keeps I kept o.id o.order),
        orders-Elsewhere uuid_parse uuid_text origin ticket w synced o.faults
            (reserve_ticket o.id o.input) (λ I any. reserve_ticket-Keeps I any o.id o.input),
        orders-Elsewhere uuid_parse uuid_text origin ticket w synced o.faults
            (expire_created_order o.now o.order)
            (λ I any. expire_created_order-Keeps I any o.now o.order),
        orders-Elsewhere uuid_parse uuid_text origin ticket w synced o.faults
            (start_payment o.order o.user) (λ I any. start_payment-Keeps I any o.order o.user),
        orders-Elsewhere uuid_parse uuid_text origin ticket w synced o.faults
            (resolve_payment o.order o.outcome)
            (λ I any. resolve_payment-Keeps I any o.order o.outcome),
        orders-Elsewhere uuid_parse uuid_text origin ticket w synced o.faults
            (cancel_by_id_and_user o.order o.user)
            (λ I any. cancel_by_id_and_user-Keeps I any o.order o.user),
      )
