-- ===== src/Creation/PaymentCreation/Refused.antt =====
-- A checkout that Orders refuses for good: what the caller of Payments is told, and why.
use mathlib.Core.Path.{subst}
use polyglot_ticketing_v.Base.{
  ℕ, ◌≡◌, ◌⊎◌, refl, sym, true, inl, inr, List, [], ◌∷◌, Option, none, some, Text, Result, ok, err,
  arith,
}
use polyglot_ticketing_v.Base.Db.{
  Fault, healthy, rejected, lost, Session, Db, next_fault, later_faults,
}
use polyglot_ticketing_v.Base.Grpc.{Status, respond, handle}
use polyglot_ticketing_v.Base.Validation.{ValidationError, if_valid, answered}
use polyglot_ticketing_v.Base.Temporal.{Failure, non_retryable, other_failure}
use polyglot_ticketing_v.World.{World, deliver, on_orders}
use polyglot_ticketing_v.Orders.Model as Orders
use polyglot_ticketing_v.Orders.Model.{OrdersDb, PaymentOrder}
use polyglot_ticketing_v.Orders.Repository as Repository
use polyglot_ticketing_v.Orders.Repository.{find_payment_order}
use polyglot_ticketing_v.Orders.Repository.Checkout.Refusals.{
  is_closed, Refusal, start_payment-Refusal,
}
use polyglot_ticketing_v.Orders.Service.{start_checkout, value}
use polyglot_ticketing_v.Orders.Wire.{WireOrder}
use polyglot_ticketing_v.Orders.Server.{
  start_payment_status, to_payment_order_response, handle_start_payment,
}
use polyglot_ticketing_v.Payments.Model.{
  Error, order_not_found, order_not_payable, Order, CreateInput,
}
use polyglot_ticketing_v.Payments.OrdersClient.{map_orders_error, start_payment}
use polyglot_ticketing_v.Creation.PaymentCreation.{
  start_failure, read_started, type_error, create_payment_workflow_error, start_order_payment,
}

-- The caller is told that the order is not found, and the user has none such on a ticket that is there; or
-- that it is not payable, and the user has it, complete or canceled.
abbrev pub Explained : CreateInput → OrdersDb → Error → Type 0
Explained input db e =
    ((e ≡ order_not_found) × (find_payment_order input.order_id input.user_id db ≡ none))
    ⊎ ((e ≡ order_not_payable)
        × ((p : PaymentOrder) × (find_payment_order input.order_id input.user_id db ≡ some p)
            × (is_closed p.status ≡ true)))

-- A failure for good has left Orders as it was, and is explained by it.
abbrev pub Refused : CreateInput → OrdersDb → Result Failure Order → OrdersDb → Type 0
Refused input before (ok _) t = Unit
Refused input before (err other_failure) t = Unit
Refused input before (err (non_retryable f)) t =
    (t ≡ before) × Explained input before (create_payment_workflow_error (non_retryable f))

Refusal-Refused :
    (input : CreateInput) (before t : OrdersDb) (r : Result Orders.Error PaymentOrder)
    → Refusal input.order_id input.user_id before r t
    → Refused input before
        (read_started (respond start_payment_status to_payment_order_response (answered r)))
        t
unfolding start_payment_status start_payment start_failure map_orders_error
    create_payment_workflow_error type_error
Refusal-Refused input before t (ok _) h = tt
Refusal-Refused input before t (err Orders.order_not_found) h = (h.0, inl (refl, h.1))
Refusal-Refused input before t (err Orders.order_not_payable) h = (h.0, inr (refl, h.1))
Refusal-Refused input before t (err (Orders.database _)) h = tt
Refusal-Refused input before t (err _) h = absurd h

call-Refused :
    (input : CreateInput) (errors : List ValidationError) (id : ℕ)
    → id ≡ input.order_id
    → (s : Session OrdersDb)
    → let call = if_valid errors (Repository.start_payment id input.user_id) in
      let (r, u) = handle start_payment_status to_payment_order_response call s in
      Refused input s.tables (read_started r) u.tables
unfolding start_failure start_payment map_orders_error
call-Refused input [] id same s = Refusal-Refused input s.tables _ _ (
    subst
      (λ i.
        let (r, u) = Repository.start_payment i input.user_id s in
        Refusal input.order_id input.user_id s.tables r u.tables)
      (sym same) ((start_payment-Refusal input.order_id input.user_id s.tables).holds s refl))
call-Refused input (e ∷ more) id same s = tt

module _ (input : CreateInput) (before : OrdersDb) (handler : Db World Status WireOrder) where
  deliver-Refused :
      (fault : Fault) (s : Session World)
      → Refused input before (read_started (handler s).0) (handler s).1.tables.orders
      → let (r, u) = deliver fault handler s in
        Refused input before (read_started r) u.tables.orders
  unfolding start_failure start_payment map_orders_error
  deliver-Refused healthy s h = h
  deliver-Refused (rejected _) s h = tt
  deliver-Refused (lost _) s h = tt

-- If UUIDs go through their texts unchanged, whatever goes wrong: where the start of an order's payment
-- fails for good in the workflow that creates the payment, Orders' tables are as they were before that
-- attempt, and what the failed workflow comes to for the caller of Payments is that the order is not
-- found, where the caller has no such order on a ticket that Orders knows, or that it is not payable,
-- where the caller has it and it is complete or canceled, and nothing else.
pub start_order_payment-Refused :
    (uuid_parse : Text → Option ℕ) (uuid_text : ℕ → Text)
    → ((id : ℕ) → uuid_parse (uuid_text id) ≡ some id)
    → (input : CreateInput) (s : Session World)
    → let (r, u) = start_order_payment uuid_parse uuid_text input s in
      Refused input s.tables.orders r u.tables.orders
unfolding start_order_payment handle_start_payment start_checkout
start_order_payment-Refused uuid_parse uuid_text uuid_law input s =
    let handler =
      on_orders (handle_start_payment uuid_parse (uuid_text input.order_id) input.user_id) in
    let same : value uuid_parse (uuid_text input.order_id) ≡ input.order_id =
      ground (arith, uuid_law input.order_id) in
    deliver-Refused input s.tables.orders handler (next_fault s.faults)
      (record s { faults = later_faults s.faults })
      (call-Refused input _ (value uuid_parse (uuid_text input.order_id)) same
        (record { tables = s.tables.orders; faults = later_faults s.faults }))
