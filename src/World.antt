-- ===== src/World.antt =====
-- The databases of the three services side by side, and calls from one service to another.
use polyglot_ticketing_v.Base.{ok, err, runes}
use polyglot_ticketing_v.Base.Db.{Fault, healthy, rejected, lost, Db, next_fault, later_faults}
use polyglot_ticketing_v.Base.Grpc.{Status, unavailable, plain_error}
use polyglot_ticketing_v.Orders.Model.{OrdersDb}
use polyglot_ticketing_v.Tickets.Model.{TicketsDb}
use polyglot_ticketing_v.Payments.Model.{PaymentsDb}

pub record World : Type 0 where
  pub orders : OrdersDb
  pub tickets : TicketsDb
  pub payments : PaymentsDb

-- A computation of one service, in the world.
abbrev pub on_orders : {E A : Type 0} → Db OrdersDb E A → Db World E A
on_orders call s =
    let (r, s') = call (record { tables = s.tables.orders; faults = s.faults }) in
    (r, record { tables = record s.tables { orders = s'.tables }; faults = s'.faults })

abbrev pub on_tickets : {E A : Type 0} → Db TicketsDb E A → Db World E A
on_tickets call s =
    let (r, s') = call (record { tables = s.tables.tickets; faults = s.faults }) in
    (r, record { tables = record s.tables { tickets = s'.tables }; faults = s'.faults })

abbrev pub on_payments : {E A : Type 0} → Db PaymentsDb E A → Db World E A
on_payments call s =
    let (r, s') = call (record { tables = s.tables.payments; faults = s.faults }) in
    (r, record { tables = record s.tables { payments = s'.tables }; faults = s'.faults })

-- The caller's error replaced by its own.
abbrev pub map_err : {T E F A : Type 0} → (E → F) → Db T E A → Db T F A
map_err f call s = let (r, s') = call s in (elim r [ ok a ↦ ok a | err e ↦ err (f e) ], s')

-- What gRPC itself reports where the call or its answer is lost.
abbrev pub connection_lost : Status
connection_lost = plain_error unavailable (runes "connection error")

-- A call over gRPC, which may not arrive, and whose answer may not.
abbrev pub deliver : {A : Type 0} → Fault → Db World Status A → Db World Status A
deliver healthy handler s = handler s
deliver (rejected _) handler s = (err connection_lost, s)
deliver (lost _) handler s = (err connection_lost, (handler s).1)

abbrev pub rpc : {A : Type 0} → Db World Status A → Db World Status A
rpc handler s = deliver (next_fault s.faults) handler (record s { faults = later_faults s.faults })
