-- ===== src/Reservation/Later.antt =====
-- What the orders and the claims of tickets look like at a later time.
use polyglot_ticketing_v.Base.{ℕ, List, ◌≡◌, ◌⊎◌, refl, true, some, inl, inr, Result, ok, err}
use polyglot_ticketing_v.Base.Table.{lookup}
use polyglot_ticketing_v.Base.Db.{
  Fault, healthy, rejected, lost, Session, Db, next_fault, later_faults,
}
use polyglot_ticketing_v.Base.Db.Keeps.{Keeps}
use polyglot_ticketing_v.Base.Grpc.{Status}
use polyglot_ticketing_v.World.{World, on_orders, on_tickets, deliver, rpc}
use polyglot_ticketing_v.Orders.Repository.Answers.{Given}
use polyglot_ticketing_v.Orders.Model.{
  Error, Status as OrderStatus, canceled, OrderRow, OrdersDb, is_canceled,
}
use polyglot_ticketing_v.Orders.Repository.Evolves.{IsLater, Evolves, Evolves-refl, Evolves-trans}
use polyglot_ticketing_v.Tickets.Model.{TicketRow, TicketsDb}
use polyglot_ticketing_v.Tickets.Repository.Frozen.{At}

-- The order is there and canceled.
abbrev pub IsCanceled : ℕ → OrdersDb → Type 0
IsCanceled id db =
    (row : OrderRow) × (lookup id db.orders ≡ some row) × (is_canceled row.status ≡ true)

is_canceled-IsLater :
    (s t : OrderStatus) → IsLater s t → is_canceled s ≡ true → is_canceled t ≡ true
is_canceled-IsLater canceled canceled h c = refl
is_canceled-IsLater canceled _ h c = absurd h
is_canceled-IsLater _ t h c = cc

pub IsCanceled-Evolves : (id : ℕ) (a b : OrdersDb) → Evolves a b → IsCanceled id a → IsCanceled id b
IsCanceled-Evolves id a b on (row, there, c) =
    let (row', there', continues) = on.continues id row there in
    (row', there', is_canceled-IsLater row.status row'.status continues.later c)

-- Every order continues, and a ticket's claim and row are kept unless its order is canceled.
pub record Later (w w' : World) : Type 0 where
  pub orders : Evolves w.orders w'.orders
  pub claims :
      (ticket order : ℕ) (row : TicketRow)
      → lookup ticket w.tickets.tickets ≡ some row
      → row.reserved_by_order_id ≡ some order
      → (lookup ticket w'.tickets.tickets ≡ some row) ⊎ IsCanceled order w'.orders

pub Later-refl : (w : World) → Later w w
Later-refl w = record {
  orders = Evolves-refl w.orders;
  claims = λ ticket order row there held. inl there;
}

pub Later-trans : (a b c : World) → Later a b → Later b c → Later a c
Later-trans a b c h k = record {
  orders = Evolves-trans a.orders b.orders c.orders h.orders k.orders;
  claims = λ ticket order row there held. elim (h.claims ticket order row there held) [
    | inl kept ↦ k.claims ticket order row kept held
    | inr dead ↦ inr (IsCanceled-Evolves order b.orders c.orders k.orders dead)
  ];
}

-- What a computation does to the world is a later one.
abbrev pub Moves : {E A : Type 0} → Db World E A → Session World → Type 0
Moves call s = Later s.tables (call s).1.tables

module _ {E A : Type 0} where
  pub on_orders-Moves :
      (call : Db OrdersDb E A) (s : Session World)
      → ((before : OrdersDb) → Keeps (Evolves before) call)
      → Moves (on_orders call) s
  on_orders-Moves call s keeps = record {
    orders = (keeps s.tables.orders).holds _ (Evolves-refl s.tables.orders);
    claims = λ ticket order row there held. inl there;
  }

  -- A call of Tickets keeps each claim, or the order that has it is canceled.
  pub on_tickets-Moves :
      (call : Db TicketsDb E A) (s : Session World)
      → ((ticket order : ℕ) (row : TicketRow) (held : row.reserved_by_order_id ≡ some order)
          → Keeps (At ticket row order held) call ⊎ IsCanceled order s.tables.orders)
      → Moves (on_tickets call) s
  on_tickets-Moves call s keeps = record {
    orders = Evolves-refl s.tables.orders;
    claims = λ ticket order row there held. elim (keeps ticket order row held) [
      | inl kept ↦ inl (kept.holds _ there)
      | inr dead ↦ inr dead
    ];
  }

module _ {A : Type 0} (handler : Db World Status A) where
  deliver-Moves :
      (fault : Fault) (s : Session World) → Moves handler s → Moves (deliver fault handler) s
  deliver-Moves healthy s h = h
  deliver-Moves (rejected _) s h = Later-refl s.tables
  deliver-Moves (lost _) s h = h

  pub rpc-Moves :
      (s : Session World)
      → Moves handler (record s { faults = later_faults s.faults })
      → Moves (rpc handler) s
  rpc-Moves s h =
      deliver-Moves (next_fault s.faults) (record s { faults = later_faults s.faults }) h

-- A result that, where there is one, has a property in the world behind the call.
abbrev pub Holding : {E A : Type 0} → (A → World → Type 0) → Result E A × Session World → Type 0
Holding Q (ok a, s) = Q a s.tables
Holding Q (err _, s) = Unit

module _ {A : Type 0} (Q : A → World → Type 0) where
  pub map_err-Holding :
      {E F : Type 0} (f : E → F) (r : Result E A) (s : Session World)
      → Holding Q (r, s)
      → Holding Q (elim r [ ok a ↦ Result.ok a | err e ↦ err (f e) ], s)
  map_err-Holding f (ok a) s h = h
  map_err-Holding f (err e) s h = tt

  pub Given-Holding :
      (R : A → OrdersDb → Type 0) (r : Result Error A) (w : World) (t : OrdersDb)
      (faults : List Fault)
      → Given R r t
      → ((a : A) → R a t → Q a (record w { orders = t }))
      → Holding Q (r, record { tables = record w { orders = t }; faults = faults })
  Given-Holding R (ok a) w t faults h k = k a h
  Given-Holding R (err e) w t faults h k = tt
