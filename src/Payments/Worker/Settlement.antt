-- ===== src/Payments/Worker/Settlement.antt =====
-- A round of the settlement worker settles a payment only as Orders has confirmed it.
use polyglot_ticketing_v.Base.{
  ℕ, ◌+◌, ◌≡◌, ◌⊎◌, refl, sym, ap, ◌∙◌, Option, none, some, arith, Bool-cases, inl, inr, Result, ok,
  err,
}
use polyglot_ticketing_v.Base.Table.{lookup, IsKeyed}
use polyglot_ticketing_v.Base.Db.{Session}
use polyglot_ticketing_v.Payments.Model.{
  Error, OrderStatus, Status, pending, Payment, PaymentRow, PaymentsDb, order_status_eq,
  expected_order_status,
}
use polyglot_ticketing_v.Payments.Repository.{claim_next_pending, mark_resolved}
use polyglot_ticketing_v.Payments.Repository.Waiting.{
  order_status_eq_sound, Waits, Named, Claimed, claim_next_pending-Claimed,
}
use polyglot_ticketing_v.Payments.Repository.Fate.{Fate, mark_resolved-Fate}
use polyglot_ticketing_v.Payments.Worker.{after_answer, after_outcome, after_claim, settle_one}

module _ (resolve_payment : ℕ → Status → Result Error OrderStatus) where
  -- Orders has answered that the order has reached what the payment's status wants.
  abbrev pub IsConfirmed : ℕ → Status → Type 0
  IsConfirmed order status = resolve_payment order status ≡ ok (expected_order_status status)

  module _ (id order : ℕ) where
    -- The row waits, or is settled as Orders has confirmed.
    abbrev Justified : Option PaymentRow → Type 0
    Justified none = ⊥
    Justified (some row) = (row.status ≡ pending) ⊎ IsConfirmed order row.status

    Waits-Justified : (x : Option PaymentRow) → Waits id order x → Justified x
    Waits-Justified none w = w
    Waits-Justified (some row) w = inl w.1

    Waits-Fate :
        (k : ℕ) (outcome : Status) (x : Option PaymentRow) → Waits id order x → Fate id k outcome x
    Waits-Fate k outcome none w = w
    Waits-Fate k outcome (some row) w = inl w.1

    Fate-Justified :
        (claimed : Payment) (outcome : Status) (x : Option PaymentRow)
        → Named id order (some claimed)
        → IsConfirmed claimed.order_id outcome
        → Fate id claimed.id outcome x
        → Justified x
    Fate-Justified claimed outcome none named confirmed f = f
    Fate-Justified claimed outcome (some row) named confirmed (inl waiting) = inl waiting
    Fate-Justified claimed outcome (some row) named confirmed (inr (same, status)) =
        let one : claimed.order_id ≡ order = named same in inr (rw status (rw (sym one) confirmed))

    after_answer-Justified :
        (claimed : Payment) (outcome : Status) (answer : Result Error OrderStatus)
        (s : Session PaymentsDb)
        → Named id order (some claimed)
        → Waits id order (lookup id s.tables.payments)
        → resolve_payment claimed.order_id outcome ≡ answer
        → Justified
            (lookup id (after_answer resolve_payment claimed outcome answer s).1.tables.payments)
    unfolding after_answer
    after_answer-Justified claimed outcome (err e) s named w answered =
        Waits-Justified (lookup id s.tables.payments) w
    after_answer-Justified claimed outcome (ok status) s named w answered =
        elim (Bool-cases (order_status_eq status (expected_order_status outcome))) [
          | inr other ↦ rw other (Waits-Justified (lookup id s.tables.payments) w)
          | inl expected ↦
              let t : PaymentsDb = (mark_resolved claimed.id outcome s).1.tables in
              let fate : Fate id claimed.id outcome (lookup id t.payments) =
                (mark_resolved-Fate id claimed.id outcome).holds s
                  (Waits-Fate claimed.id outcome (lookup id s.tables.payments) w) in
              let confirmed : IsConfirmed claimed.order_id outcome =
                answered
                ∙ ap ok (order_status_eq_sound status (expected_order_status outcome) expected) in
              rw expected
                (Fate-Justified claimed outcome (lookup id t.payments) named confirmed fate)
        ]

    after_outcome-Justified :
        (claimed : Payment) (outcome : Option Status) (s : Session PaymentsDb)
        → Named id order (some claimed)
        → Waits id order (lookup id s.tables.payments)
        → Justified (lookup id (after_outcome resolve_payment claimed outcome s).1.tables.payments)
    unfolding after_outcome
    after_outcome-Justified claimed none s named w = Waits-Justified (lookup id s.tables.payments) w
    after_outcome-Justified claimed (some outcome) s named w =
        after_answer-Justified claimed outcome (resolve_payment claimed.order_id outcome) s named w
          refl

    after_claim-Justified :
        (r : Result Error (Option Payment)) (s : Session PaymentsDb)
        → Claimed id order r s.tables
        → Justified (lookup id (after_claim resolve_payment r s).1.tables.payments)
    unfolding after_claim
    after_claim-Justified (err e) s h = Waits-Justified (lookup id s.tables.payments) h
    after_claim-Justified (ok none) s h = Waits-Justified (lookup id s.tables.payments) h.0
    after_claim-Justified (ok (some claimed)) s h =
        after_outcome-Justified claimed claimed.mock_outcome s h.1 h.0

    settle_one-Justified :
        (now lease_duration : ℕ) (outcome : Status) (s : Session PaymentsDb)
        → IsKeyed s.tables.payments
        → Waits id order (lookup id s.tables.payments)
        → Justified
            (lookup id (settle_one resolve_payment now lease_duration outcome s).1.tables.payments)
    unfolding settle_one
    settle_one-Justified now lease_duration outcome s keyed w =
        let (r, s') = claim_next_pending now outcome (now + lease_duration) s in
        after_claim-Justified r s' (
          (claim_next_pending-Claimed id order now outcome (now + lease_duration)).holds s
            (keyed, w))

  Justified-row :
      (id order : ℕ) (x : Option PaymentRow) (row : PaymentRow)
      → Justified id order x
      → x ≡ some row
      → (row.status ≡ pending) ⊎ IsConfirmed order row.status
  Justified-row id order none row j e = absurd j
  Justified-row id order (some r) row j e = ground (arith, e, j)

  -- Whatever goes wrong in a round, and whichever payment it claims: with unique keys, a payment
  -- that was pending is still pending, or its new status is one for which Orders answered, for the
  -- payment's own order, exactly the order status that this status wants.
  pub settle_one_confirmed :
      (now lease_duration id : ℕ) (outcome : Status) (row row' : PaymentRow)
      (s : Session PaymentsDb)
      → IsKeyed s.tables.payments
      → lookup id s.tables.payments ≡ some row
      → row.status ≡ pending
      → lookup id (settle_one resolve_payment now lease_duration outcome s).1.tables.payments
        ≡ some row'
      → (row'.status ≡ pending)
        ⊎ (resolve_payment row.order_id row'.status ≡ ok (expected_order_status row'.status))
  settle_one_confirmed now lease_duration id outcome row row' s keyed at waiting after =
      let x : Option PaymentRow =
        lookup id (settle_one resolve_payment now lease_duration outcome s).1.tables.payments in
      let w : Waits id row.order_id (lookup id s.tables.payments) = rw at (refl, waiting) in
      Justified-row id row.order_id x row'
        (settle_one-Justified id row.order_id now lease_duration outcome s keyed w) after
