-- ===== src/Creation/PaymentCreation.antt =====
-- apps/payments/internal/creation: the workflow that creates payments, its activities over the
-- databases of Payments and Orders, and the coordinator. The client of Orders calls the handler of its
-- server.
pub mod Refused
use polyglot_ticketing_v.Base.{ℕ, Bool, List, ◌++◌, Option, some, Text, runes, Result, ok, err}
use polyglot_ticketing_v.Base.Db.{Fault, Db}
use polyglot_ticketing_v.Base.Grpc.{Status, Code}
use polyglot_ticketing_v.Base.Temporal.{
  FailureType, order_not_found, order_not_payable, Failure, non_retryable, other_failure, WaitError,
  workflow_failed, Client, start_or_join, await_run,
}
use polyglot_ticketing_v.World.{World, on_orders, on_payments, rpc}
use polyglot_ticketing_v.Orders.Wire.{WireOrder}
use polyglot_ticketing_v.Orders.Server.{handle_start_payment}
use polyglot_ticketing_v.Payments.Model.{
  Error, unavailable, Order, Payment, CreateInput, CreateResult,
}
use polyglot_ticketing_v.Payments.Model
use polyglot_ticketing_v.Payments.OrdersClient.{start_payment}
use polyglot_ticketing_v.Payments.Repository.{create}

-- The errors of `StartOrderPayment`; `PersistPayment` passes every error on.
pub start_failure : Error → Failure
start_failure Model.order_not_found = non_retryable order_not_found
start_failure Model.order_not_payable = non_retryable order_not_payable
start_failure _ = other_failure

-- The answer of an RPC that always holds an order, as the client reads it.
abbrev pub rpc_answer : Result Status WireOrder → Result Code (Option WireOrder)
rpc_answer (ok order) = ok (some order)
rpc_answer (err status) = err status.code

abbrev read_started : Result Status WireOrder → Result Failure Order
read_started answer = elim (start_payment (rpc_answer answer)) [
  | ok order ↦ ok order
  | err e ↦ err (start_failure e)
]

abbrev pub persisted : Payment × Bool → CreateResult
persisted (payment, was_created) = record { created = was_created; payment = payment }

-- `StartOrderPayment`.
pub start_order_payment : (Text → Option ℕ) → (ℕ → Text) → CreateInput → Db World Failure Order
unfolding start_failure
start_order_payment uuid_parse uuid_text input s =
    let call =
      rpc (on_orders (handle_start_payment uuid_parse (uuid_text input.order_id) input.user_id)) in
    let (answer, s') = call s in (read_started answer, s')

-- `PersistPayment`; `random_id` is what gen_random_uuid() would give.
pub persist_payment : ℕ → CreateInput → Order → Db World Failure CreateResult
persist_payment random_id input order s =
    let call = on_payments (create random_id input order) in
    let (r, s') = call s in
    (elim r [ ok made ↦ ok (persisted made) | err _ ↦ err other_failure ], s')

-- What the workflow waits for.
pub data PaymentFlow : Type 0 where
  finish : Result Failure CreateResult → PaymentFlow
  start_order : CreateInput → (Order → PaymentFlow) → PaymentFlow
  persist : CreateInput → Order → (CreateResult → PaymentFlow) → PaymentFlow

-- `CreatePaymentWorkflow`.
pub create_payment_workflow : CreateInput → PaymentFlow
create_payment_workflow input =
    start_order input λ started. persist input started λ created. finish (ok created)

-- What follows an attempt.
abbrev pub follow : {A : Type 0} → PaymentFlow → (A → PaymentFlow) → Result Failure A → PaymentFlow
follow again next (ok a) = next a
follow again next (err (non_retryable t)) = finish (err (non_retryable t))
follow again next (err other_failure) = again

abbrev pub attempt :
    {A : Type 0}
    → Db World Failure A
    → PaymentFlow
    → (A → PaymentFlow)
    → List Fault
    → World
    → PaymentFlow × World
attempt activity again next faults w =
    let (r, s) = activity (record { tables = w; faults = faults }) in
    (follow again next r, s.tables)

module _ (uuid_parse : Text → Option ℕ) (uuid_text : ℕ → Text) where
  pub advance : ℕ → List Fault → PaymentFlow → World → PaymentFlow × World
  unfolding start_order_payment persist_payment
  advance random_id faults (finish r) w = (finish r, w)
  advance random_id faults (start_order input next) w =
      attempt (start_order_payment uuid_parse uuid_text input) (start_order input next) next faults
        w
  advance random_id faults (persist input order next) w =
      attempt (persist_payment random_id input order) (persist input order next) next faults w

type_error : FailureType → Error
type_error order_not_found = Model.order_not_found
type_error order_not_payable = Model.order_not_payable
type_error _ = unavailable

-- `createPaymentWorkflowError`.
pub create_payment_workflow_error : Failure → Error
unfolding type_error
create_payment_workflow_error (non_retryable t) = type_error t
create_payment_workflow_error other_failure = unavailable

pub wait_error : WaitError → Error
unfolding create_payment_workflow_error
wait_error (workflow_failed f) = create_payment_workflow_error f
wait_error _ = unavailable

-- `CreatePayment`, with SHA-256 in hexadecimal, by the standard library, in the workflow's id.
pub create_payment :
    {Run : Type 0}
    → (Text → Text)
    → (ℕ → Text)
    → Client PaymentFlow CreateResult Run
    → CreateInput
    → Result Error CreateResult
unfolding wait_error create_payment_workflow
create_payment sha256_hex uuid_text client input = await_run client unavailable wait_error (
    start_or_join client
      (runes "create-payment/" ++ uuid_text input.order_id ++ runes "/" ++ sha256_hex input.user_id)
      (create_payment_workflow input))
