-- ===== src/Payments/OrdersClient/Agrees.antt =====
-- What Payments tells Orders of a settled payment, and what Orders makes of it.
use polyglot_ticketing_v.Base.{◌≡◌, sym, ap, ◌∙◌, Bool, Option, some}
use mathlib.Core.Option.{some-injective}
use polyglot_ticketing_v.Orders.Model.{is_canceled}
use polyglot_ticketing_v.Orders.Model as Orders
use polyglot_ticketing_v.Orders.Repository.{resolution}
use polyglot_ticketing_v.Orders.Server as Sender
use polyglot_ticketing_v.Payments.Model.{Status, failed, pending, succeeded, expected_order_status}
use polyglot_ticketing_v.Payments.OrdersClient.{to_order_status, to_payment_outcome}

-- What Orders would set for a payment's status.
abbrev pub set_for : Status → Option (Orders.Status × Bool)
set_for status = resolution (Sender.to_payment_outcome (to_payment_outcome status))

-- Where Orders, told of a payment's status, would move the order to a status, Payments reads that
-- status of the answer as the one it expects; and the ticket is released just where it is canceled.
pub set_for-expected :
    (status : Status) (target : Orders.Status) (release : Bool)
    → set_for status ≡ some (target, release)
    → (to_order_status (Sender.to_order_status target) ≡ expected_order_status status)
      × (release ≡ is_canceled target)
unfolding to_order_status to_payment_outcome Sender.to_order_status Sender.to_payment_outcome
set_for-expected succeeded target release e =
    let p = some-injective _ _ e in
    (
      ap (λ (x : Orders.Status × Bool). to_order_status (Sender.to_order_status x.0)) (sym p),
      ap (λ (x : Orders.Status × Bool). x.1) (sym p)
          ∙ ap (λ (x : Orders.Status × Bool). is_canceled x.0) p,
    )
set_for-expected failed target release e =
    let p = some-injective _ _ e in
    (
      ap (λ (x : Orders.Status × Bool). to_order_status (Sender.to_order_status x.0)) (sym p),
      ap (λ (x : Orders.Status × Bool). x.1) (sym p)
          ∙ ap (λ (x : Orders.Status × Bool). is_canceled x.0) p,
    )
set_for-expected pending target release e = cc
