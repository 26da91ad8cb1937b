-- ===== src/Reservation/Workflow/Starts.antt =====
-- The four workflows at their start.
use polyglot_ticketing_v.Base.{Bool-cases, inl, inr}
use polyglot_ticketing_v.World.{World}
use polyglot_ticketing_v.Orders.Model.{TicketReservationInput}
use polyglot_ticketing_v.Reservation.Activities.{CancelInput, ExpireInput, ResolvePaymentInput}
use polyglot_ticketing_v.Reservation.Workflow.{
  create_order_workflow, cancel_order_workflow, expire_order_workflow, resolve_payment_workflow,
}
use polyglot_ticketing_v.Reservation.Later.{IsCanceled-Evolves}
use polyglot_ticketing_v.Reservation.Promise.{Has-Later, Safe}

pub create_order_workflow-Safe :
    (input : TicketReservationInput) (w : World) → Safe (create_order_workflow input) w
unfolding create_order_workflow Safe
create_order_workflow-Safe input w = λ r u _ v _ claims. elim (Bool-cases r.created) [
  | inl new ↦ rw new (λ x on. Has-Later r.order v x on (inl claims))
  | inr old ↦ rw old (inl claims)
]

pub cancel_order_workflow-Safe :
    (input : CancelInput) (w : World) → Safe (cancel_order_workflow input) w
unfolding cancel_order_workflow Safe
cancel_order_workflow-Safe input w =
    λ o u _ dead. (dead, λ x on. IsCanceled-Evolves o.id u.orders x.orders on.orders dead)

pub expire_order_workflow-Safe :
    (input : ExpireInput) (w : World) → Safe (expire_order_workflow input) w
unfolding expire_order_workflow Safe
expire_order_workflow-Safe input w = λ _ _ r u _ canceled.
    elim (Bool-cases r.should_release_ticket) [
      | inl release ↦ rw release (canceled release, λ _ _. tt)
      | inr keep ↦ rw keep tt
    ]

pub resolve_payment_workflow-Safe :
    (input : ResolvePaymentInput) (w : World) → Safe (resolve_payment_workflow input) w
unfolding resolve_payment_workflow Safe
resolve_payment_workflow-Safe input w = λ r u _ canceled.
    elim (Bool-cases r.should_release_ticket) [
      | inl release ↦ rw release (canceled release, λ _ _. tt)
      | inr keep ↦ rw keep tt
    ]
