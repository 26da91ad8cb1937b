-- ===== src/Reservation/Promise.antt =====
-- What the workflows must respect and what they promise: a claim is released only where its order is
-- canceled, and the answer of a workflow stays true.
use polyglot_ticketing_v.Base.{◌⊎◌, inl, inr, Result, ok, err}
use polyglot_ticketing_v.World.{World}
use polyglot_ticketing_v.Base.Temporal.{Failure}
use polyglot_ticketing_v.Orders.Model.{
  Order, ReservationResult, ExpirationResult, PaymentResolutionResult,
}
use polyglot_ticketing_v.Reservation.Workflow.{
  Answer, reservation_made, order_canceled, expiry_done, payment_resolved, Flow, finish,
  reserve_order, claim_ticket, cancel_order, expire_order, resolve_payment, release_ticket,
  start_child, sleep_until,
}
use polyglot_ticketing_v.Reservation.Later.{IsCanceled, IsCanceled-Evolves, Later, Later-trans}
use polyglot_ticketing_v.Reservation.Activities.Steps.{
  OrderCanceled, ExpiryCanceled, ResolutionCanceled, Claims,
}

-- The order has its ticket, or is canceled.
abbrev pub Has : Order → World → Type 0
Has o w = Claims o w ⊎ IsCanceled o.id w.orders

pub Has-Later : (o : Order) (a b : World) → Later a b → Has o a → Has o b
Has-Later o a b on (inr dead) = inr (IsCanceled-Evolves o.id a.orders b.orders on.orders dead)
Has-Later o a b on (inl (row, there, held)) = elim (on.claims o.ticket_id o.id row there held) [
  | inl kept ↦ inl (row, kept, held)
  | inr dead ↦ inr dead
]

-- What an answer promises.
abbrev pub Promised : Result Failure Answer → World → Type 0
Promised (ok (reservation_made r)) w = Has r.order w
Promised (ok (order_canceled o)) w = IsCanceled o.id w.orders
Promised (ok expiry_done) w = Unit
Promised (ok (payment_resolved o)) w = Unit
Promised (err _) w = Unit

Promised-Later : (r : Result Failure Answer) (a b : World) → Later a b → Promised r a → Promised r b
Promised-Later (ok (reservation_made r)) a b on h = Has-Later r.order a b on h
Promised-Later (ok (order_canceled o)) a b on h =
    IsCanceled-Evolves o.id a.orders b.orders on.orders h
Promised-Later (ok expiry_done) a b on h = tt
Promised-Later (ok (payment_resolved o)) a b on h = tt
Promised-Later (err _) a b on h = tt

-- Whenever the workflow goes on, it releases only claims of canceled orders and ends with an answer
-- that is so.
unfoldable pub Safe : Flow → World → Type 0
Safe (finish r) w = Promised r w
Safe (reserve_order input next) w =
    (r : ReservationResult) (u : World) → Later w u → Safe (next r) u
Safe (claim_ticket o next) w = (u : World) → Later w u → Claims o u → Safe next u
Safe (cancel_order input next) w =
    (o : Order) (u : World) → Later w u → OrderCanceled o u → Safe (next o) u
Safe (expire_order id next) w =
    (r : ExpirationResult) (u : World) → Later w u → ExpiryCanceled r u → Safe (next r) u
Safe (resolve_payment input next) w =
    (r : PaymentResolutionResult) (u : World) → Later w u → ResolutionCanceled r u → Safe (next r) u
Safe (release_ticket o next) w = IsCanceled o.id w.orders × ((u : World) → Later w u → Safe next u)
Safe (start_child input next) w = (u : World) → Later w u → Safe next u
Safe (sleep_until deadline next) w = (u : World) → Later w u → Safe next u

pub Safe-Later : (f : Flow) (a b : World) → Later a b → Safe f a → Safe f b
unfolding Safe
Safe-Later (finish r) a b on h = Promised-Later r a b on h
Safe-Later (reserve_order input next) a b on h = λ r u k. h r u (Later-trans a b u on k)
Safe-Later (claim_ticket o next) a b on h = λ u k. h u (Later-trans a b u on k)
Safe-Later (cancel_order input next) a b on h = λ o u k. h o u (Later-trans a b u on k)
Safe-Later (expire_order id next) a b on h = λ r u k. h r u (Later-trans a b u on k)
Safe-Later (resolve_payment input next) a b on h = λ r u k. h r u (Later-trans a b u on k)
Safe-Later (release_ticket o next) a b on h =
    (IsCanceled-Evolves o.id a.orders b.orders on.orders h.0, λ u k. h.1 u (Later-trans a b u on k))
Safe-Later (start_child input next) a b on h = λ u k. h u (Later-trans a b u on k)
Safe-Later (sleep_until deadline next) a b on h = λ u k. h u (Later-trans a b u on k)
