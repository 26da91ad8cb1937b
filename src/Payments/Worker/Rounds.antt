-- ===== src/Payments/Worker/Rounds.antt =====
-- All rounds of the settlement worker: a payment is settled only as Orders has confirmed in one of them.
use mathlib.Core.Path.{subst}
use mathlib.Core.Option.{some-injective}
use polyglot_ticketing_v.Base.{
  ℕ, ◌+◌, ◌≡◌, ◌⊎◌, sym, ◌∙◌, List, [], ◌∷◌, Option, none, some, Bool-cases, inl, inr, Result, ok,
  err,
}
use polyglot_ticketing_v.Base.Table.{lookup, IsKeyed}
use polyglot_ticketing_v.Base.Db.{Session}
use polyglot_ticketing_v.Payments.Model.{
  Error, OrderStatus, Status, pending, Payment, PaymentRow, PaymentsDb, order_status_eq,
  expected_order_status,
}
use polyglot_ticketing_v.Payments.Repository.{create, claim_next_pending}
use polyglot_ticketing_v.Payments.Repository.Follows.{Advances, Advances-refl, Advances-trans}
use polyglot_ticketing_v.Payments.Repository.Progress.{
  create-Advances, claim_next_pending-Advances, mark_resolved-Advances,
}
use polyglot_ticketing_v.Payments.Repository.Stays.{create-Stays}
use polyglot_ticketing_v.Payments.Worker.{
  after_answer, after_outcome, after_claim, settle_one, default_settlement_lease, Opening, Turn,
  open_all, take_turn, run,
}
use polyglot_ticketing_v.Payments.Worker.Settlement.{settle_one_confirmed}

module _ (resolve_payment : ℕ → Status → Result Error OrderStatus) where
  after_answer-Advances :
      (claimed : Payment) (outcome : Status) (answer : Result Error OrderStatus)
      (s : Session PaymentsDb)
      → Advances s.tables (after_answer resolve_payment claimed outcome answer s).1.tables
  unfolding after_answer
  after_answer-Advances claimed outcome (err e) s = Advances-refl s.tables
  after_answer-Advances claimed outcome (ok status) s =
      elim (Bool-cases (order_status_eq status (expected_order_status outcome))) [
        | inr other ↦ rw other (Advances-refl s.tables)
        | inl expected ↦
            rw expected (
              (mark_resolved-Advances s.tables claimed.id outcome).holds s (Advances-refl s.tables))
      ]

  after_outcome-Advances :
      (claimed : Payment) (outcome : Option Status) (s : Session PaymentsDb)
      → Advances s.tables (after_outcome resolve_payment claimed outcome s).1.tables
  unfolding after_outcome
  after_outcome-Advances claimed none s = Advances-refl s.tables
  after_outcome-Advances claimed (some outcome) s = after_answer-Advances claimed outcome _ s

  after_claim-Advances :
      (r : Result Error (Option Payment)) (s : Session PaymentsDb)
      → Advances s.tables (after_claim resolve_payment r s).1.tables
  unfolding after_claim
  after_claim-Advances (err e) s = Advances-refl s.tables
  after_claim-Advances (ok none) s = Advances-refl s.tables
  after_claim-Advances (ok (some claimed)) s = after_outcome-Advances claimed claimed.mock_outcome s

  settle_one-Advances :
      (now lease_duration : ℕ) (outcome : Status) (s : Session PaymentsDb)
      → Advances s.tables (settle_one resolve_payment now lease_duration outcome s).1.tables
  unfolding settle_one
  settle_one-Advances now lease_duration outcome s =
      let claim = claim_next_pending now outcome (now + lease_duration) s in
      Advances-trans s.tables claim.1.tables _
        ((claim_next_pending-Advances s.tables now outcome (now + lease_duration)).holds s
          (Advances-refl s.tables))
        (after_claim-Advances claim.0 claim.1)

-- The tables with the payments opened: the payment has its row still.
open_all-Stays :
    (id : ℕ) (row : PaymentRow) (openings : List Opening) (db : PaymentsDb)
    → IsKeyed db.payments
    → lookup id db.payments ≡ some row
    → IsKeyed (open_all openings db).payments
      × (lookup id (open_all openings db).payments ≡ some row)
unfolding open_all
open_all-Stays id row [] db keyed there = (keyed, there)
open_all-Stays id row (o ∷ rest) db keyed there =
    let s : Session PaymentsDb = record { tables = db; faults = o.faults } in
    open_all-Stays id row rest (create o.random_id o.input o.order s).1.tables
      (((create-Advances db o.random_id o.input o.order).holds s (Advances-refl db)).keyed keyed)
      ((create-Stays id row o.random_id o.input o.order).holds s there)

-- Orders answered at this turn that the order has reached what the payment's status wants.
abbrev pub ConfirmedAt : ℕ → Status → Turn → Type 0
ConfirmedAt order status turn =
    turn.resolve_payment order status ≡ ok (expected_order_status status)

-- It did so at one of the turns.
abbrev pub ConfirmedIn : ℕ → Status → Turn → List Turn → Type 0
ConfirmedIn order status turn [] = ConfirmedAt order status turn
ConfirmedIn order status turn (next ∷ rest) =
    ConfirmedAt order status turn ⊎ ConfirmedIn order status next rest

-- What a turn does to a payment.
take_turn-confirmed :
    (outcome : Status) (turn : Turn) (db : PaymentsDb) (id : ℕ) (row : PaymentRow)
    → IsKeyed db.payments
    → lookup id db.payments ≡ some row
    → IsKeyed (take_turn outcome turn db).payments
      × ((row' : PaymentRow) × (lookup id (take_turn outcome turn db).payments ≡ some row')
          × (row'.order_id ≡ row.order_id)
          × ((row'.status ≡ row.status)
              ⊎ ((row.status ≡ pending) × ConfirmedAt row.order_id row'.status turn)))
unfolding take_turn
take_turn-confirmed outcome turn db id row keyed there =
    let (keyed', there') = open_all-Stays id row turn.opened db keyed there in
    let s : Session PaymentsDb = record {
      tables = open_all turn.opened db;
      faults = turn.faults;
    } in
    let on = settle_one-Advances turn.resolve_payment turn.now default_settlement_lease outcome s in
    let (row', after, follows) = on.follows id row there' in
    (
      on.keyed keyed',
      (
        row',
        after,
        follows.same_order,
        elim follows.same_status [
          | inl same ↦ inl same
          | inr (waiting, _) ↦
              elim (settle_one_confirmed turn.resolve_payment turn.now default_settlement_lease id
                outcome row row' s keyed' there' waiting after) [
                  | inl still ↦ inl (still ∙ sym waiting)
                  | inr confirmed ↦ inr (waiting, confirmed)
                ]
        ],
      ),
    )

-- What a payment's status has become when the worker stops.
run-settled :
    (outcome : Status) (turn : Turn) (rest : List Turn) (db : PaymentsDb) (id : ℕ)
    (row row' : PaymentRow)
    → IsKeyed db.payments
    → lookup id db.payments ≡ some row
    → lookup id (run outcome turn rest db).payments ≡ some row'
    → (row'.status ≡ row.status)
      ⊎ ((row.status ≡ pending) × ConfirmedIn row.order_id row'.status turn rest)
unfolding run
run-settled outcome turn [] db id row row' keyed there after =
    let (_, (last, at, same, fate)) = take_turn-confirmed outcome turn db id row keyed there in
    let one : last ≡ row' = some-injective last row' (sym at ∙ after) in
    subst
      (λ (x : PaymentRow).
        (x.status ≡ row.status) ⊎ ((row.status ≡ pending) × ConfirmedAt row.order_id x.status turn))
      one fate
run-settled outcome turn (next ∷ rest) db id row row' keyed there after =
    let (keyed', (mid, at, same, fate)) = take_turn-confirmed outcome turn db id row keyed there in
    let later =
      run-settled outcome next rest (take_turn outcome turn db) id mid row' keyed' at after in
    elim later [
      | inl still ↦ elim fate [
        | inl kept ↦ inl (still ∙ kept)
        | inr (waiting, confirmed) ↦ inr (
          waiting,
          inl (subst (λ status. ConfirmedAt row.order_id status turn) (sym still) confirmed),
        )
      ]
      | inr (waiting, confirmed) ↦ elim fate [
        | inl kept ↦ inr (
          sym kept ∙ waiting,
          inr (subst (λ order. ConfirmedIn order row'.status next rest) same confirmed),
        )
        | inr (was, _) ↦
            inr (was, inr (subst (λ order. ConfirmedIn order row'.status next rest) same confirmed))
      ]
    ]

-- Whatever the worker's rounds claim, whatever Orders answers in each and whatever goes wrong, among
-- payments that are opened meanwhile: with unique keys, a payment that was pending is still pending
-- when the worker stops, or its status is one for which Orders answered in one of the rounds, for the
-- payment's own order, exactly the order status that this status wants.
pub run_confirmed :
    (outcome : Status) (turn : Turn) (rest : List Turn) (db : PaymentsDb) (id : ℕ)
    (row row' : PaymentRow)
    → IsKeyed db.payments
    → lookup id db.payments ≡ some row
    → row.status ≡ pending
    → lookup id (run outcome turn rest db).payments ≡ some row'
    → (row'.status ≡ pending) ⊎ ConfirmedIn row.order_id row'.status turn rest
run_confirmed outcome turn rest db id row row' keyed there waiting after =
    elim (run-settled outcome turn rest db id row row' keyed there after) [
      | inl same ↦ inl (same ∙ waiting)
      | inr (_, confirmed) ↦ inr confirmed
    ]
