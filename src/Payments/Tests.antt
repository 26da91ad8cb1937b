-- ===== src/Payments/Tests.antt =====
-- Runs of the Payments model on small tables.
use polyglot_ticketing_v.Base.{ℕ, ◌⊎◌, Result, ok, err}
use polyglot_ticketing_v.Base.Db.{perform, statement, query, transaction, finish}
use polyglot_ticketing_v.Payments.Repository.{
  claim_next_pending, claim_first, select_least, is_claimable, claim_rest, lease_found, require,
  mark_resolved, resolve_found, is_due, set_order_status,
}
use polyglot_ticketing_v.Payments.Worker
use polyglot_ticketing_v.Payments.Worker.{
  settle_one, after_claim, after_outcome, after_answer, Turn, open_all, take_turn,
}
use polyglot_ticketing_v.Payments.Worker.Rounds.{ConfirmedIn, run_confirmed}
use polyglot_ticketing_v.Base.{◌≡◌, refl, none, some, [], ◌∷◌, runes}
use polyglot_ticketing_v.Base.Int.{pos}
use polyglot_ticketing_v.Base.Table.{lookup, write}
use polyglot_ticketing_v.Base.Db.{other, healthy, lost}
use polyglot_ticketing_v.Payments.Model.{
  Error, unavailable, OrderStatus, Status, complete, awaiting_payment, failed, pending, succeeded,
  OrderRow, PaymentRow, PaymentsDb,
}
use polyglot_ticketing_v.Payments.Repository.Follows.{Follows}
use polyglot_ticketing_v.Payments.History.{History, claim, settle, run, run-Follows}
use polyglot_ticketing_v.Base.{false}
use polyglot_ticketing_v.Orders.Model.{is_canceled}
use polyglot_ticketing_v.Orders.Model as Sold
use polyglot_ticketing_v.Orders.Server as Sender
use polyglot_ticketing_v.Payments.Model.{expected_order_status}
use polyglot_ticketing_v.Payments.OrdersClient
use polyglot_ticketing_v.Payments.OrdersClient.Agrees.{set_for-expected}

abbrev order_row : OrderRow
order_row = record {
  aggregate_version = 0;
  user_id = runes "a";
  price = pos 2500;
  status = awaiting_payment;
}

abbrev open_row : PaymentRow
open_row = record {
  order_id = 11;
  status = pending;
  mock_outcome = none;
  settlement_lease_expires_at = none;
}

abbrev shop : PaymentsDb
shop = record { orders = (11, order_row) ∷ []; payments = (5, open_row) ∷ [] }

-- A lease whose commit's answer is lost, one by a worker with another outcome, and the settlements.
abbrev contended : History
contended =
    (claim 100 succeeded 200, healthy ∷ healthy ∷ healthy ∷ lost (other 0) ∷ [])
    ∷ (claim 250 failed 350, [])
    ∷ (settle 5 failed, [])
    ∷ (settle 5 succeeded, [])
    ∷ []

run-Follows_example :
    (row : PaymentRow) × (lookup 5 (run contended shop).payments ≡ some row) × Follows open_row row
unfolding lookup
run-Follows_example = run-Follows contended shop 5 open_row refl

-- Orders that completes every order it is asked about.
abbrev completes : ℕ → Status → Result Error OrderStatus
completes _ _ = ok complete

abbrev paid_row : PaymentRow
paid_row = record {
  order_id = 11;
  status = succeeded;
  mock_outcome = some succeeded;
  settlement_lease_expires_at = none;
}

-- Orders cannot be reached in the first round, and answers in the second.
abbrev unreachable : ℕ → Status → Result Error OrderStatus
unreachable _ _ = err unavailable

abbrev first_turn : Turn
first_turn = record { opened = []; now = 100; resolve_payment = unreachable; faults = [] }

abbrev second_turn : Turn
second_turn = record { opened = []; now = 10_000_000_100; resolve_payment = completes; faults = [] }

run-shop :
    lookup 5 (Worker.run succeeded first_turn (second_turn ∷ []) shop).payments ≡ some paid_row
unfolding Worker.run take_turn open_all settle_one after_claim after_outcome after_answer
    claim_next_pending claim_first select_least is_claimable claim_rest lease_found require
    mark_resolved resolve_found is_due set_order_status transaction statement query finish perform
    lookup write
run-shop = refl

run_confirmed_example :
    (succeeded ≡ pending) ⊎ ConfirmedIn 11 succeeded first_turn (second_turn ∷ [])
unfolding lookup
run_confirmed_example =
    run_confirmed succeeded first_turn (second_turn ∷ []) shop 5 open_row paid_row (refl, tt) refl
      refl run-shop

set_for-expected_example :
    (OrdersClient.to_order_status (Sender.to_order_status Sold.complete)
      ≡ expected_order_status succeeded)
    × (false ≡ is_canceled Sold.complete)
unfolding OrdersClient.to_payment_outcome Sender.to_payment_outcome
set_for-expected_example = set_for-expected succeeded Sold.complete false refl
