-- ===== src/Payments/Worker.antt =====
-- apps/payments/internal/payment/worker.go: the rounds of the settlement worker.
pub mod Settlement
pub mod Rounds
use polyglot_ticketing_v.Base.{
  ℕ, ◌+◌, List, [], ◌∷◌, Option, none, some, if◌then◌else◌, Result, ok, err,
}
use polyglot_ticketing_v.Base.Db.{Fault, Session}
use polyglot_ticketing_v.Payments.Model.{
  Error, OrderStatus, Status, Order, Payment, CreateInput, PaymentsDb, order_status_eq,
  expected_order_status,
}
use polyglot_ticketing_v.Payments.Repository.{create, claim_next_pending, mark_resolved}

-- `defaultSettlementLease`, in nanoseconds.
abbrev pub default_settlement_lease : ℕ
default_settlement_lease = 10_000_000_000

-- How a round ends: each log line of the source, and the two silent ends.
pub data Round : Type 0 where
  claim_failed : Error → Round
  nothing_pending : Round
  no_mock_outcome : Payment → Round
  will_retry : Payment → Error → Round
  conflicting_status : Payment → OrderStatus → Round
  persistence_failed : Payment → Error → Round
  resolved : Payment → Round

-- `ResolvePayment` of the Orders client is the parameter.
module _ (resolve_payment : ℕ → Status → Result Error OrderStatus) where
  persisted : Payment → Result Error (Unit {0}) → Round
  persisted claimed (ok _) = resolved claimed
  persisted claimed (err e) = persistence_failed claimed e

  unfoldable pub after_answer :
      Payment → Status → Result Error OrderStatus → Session PaymentsDb → Round × Session PaymentsDb
  unfolding persisted
  after_answer claimed outcome (err e) s = (will_retry claimed e, s)
  after_answer claimed outcome (ok status) s =
      let (r, s') = mark_resolved claimed.id outcome s in
      if order_status_eq status (expected_order_status outcome)
      then (persisted claimed r, s')
      else (conflicting_status claimed status, s)

  unfoldable pub after_outcome :
      Payment → Option Status → Session PaymentsDb → Round × Session PaymentsDb
  unfolding after_answer
  after_outcome claimed none s = (no_mock_outcome claimed, s)
  after_outcome claimed (some outcome) s =
      after_answer claimed outcome (resolve_payment claimed.order_id outcome) s

  unfoldable pub after_claim :
      Result Error (Option Payment) → Session PaymentsDb → Round × Session PaymentsDb
  unfolding after_outcome
  after_claim (err e) s = (claim_failed e, s)
  after_claim (ok none) s = (nothing_pending, s)
  after_claim (ok (some claimed)) s = after_outcome claimed claimed.mock_outcome s

  -- `settleOne`, by a worker with the given lease and configured outcome.
  unfoldable pub settle_one : ℕ → ℕ → Status → Session PaymentsDb → Round × Session PaymentsDb
  unfolding after_claim
  settle_one now lease_duration outcome s =
      let (r, s') = claim_next_pending now outcome (now + lease_duration) s in after_claim r s'

-- A payment that is opened meanwhile: its UUID, its input, its order, and what goes wrong.
pub record Opening : Type 0 where
  pub random_id : ℕ
  pub input : CreateInput
  pub order : Order
  pub faults : List Fault

-- A turn of the worker's loop: the payments opened since the last one, the time, what Orders answers at
-- that time, and what goes wrong.
pub record Turn : Type 0 where
  pub opened : List Opening
  pub now : ℕ
  pub resolve_payment : ℕ → Status → Result Error OrderStatus
  pub faults : List Fault

-- The tables with the payments opened.
unfoldable pub open_all : List Opening → PaymentsDb → PaymentsDb
open_all [] db = db
open_all (o ∷ rest) db =
    open_all rest
      (create o.random_id o.input o.order (record { tables = db; faults = o.faults })).1.tables

-- One turn.
unfoldable pub take_turn : Status → Turn → PaymentsDb → PaymentsDb
unfolding settle_one open_all
take_turn outcome turn db =
    (settle_one turn.resolve_payment turn.now default_settlement_lease outcome
      (record { tables = open_all turn.opened db; faults = turn.faults })).1.tables

-- `Run`: a round, and then one at each tick until the context is done.
unfoldable pub run : Status → Turn → List Turn → PaymentsDb → PaymentsDb
unfolding take_turn
run outcome turn [] db = take_turn outcome turn db
run outcome turn (next ∷ rest) db = run outcome next rest (take_turn outcome turn db)
