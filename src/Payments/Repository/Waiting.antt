-- ===== src/Payments/Repository/Waiting.antt =====
-- A payment that waits to be settled, through a claim of any payment.
use mathlib.Core.Path.{subst}
use polyglot_ticketing_v.Base.{
  ℕ, ◌≡◌, sym, ap, ◌∙◌, Bool, true, Option, none, some, List, [], ◌∷◌, arith, ◌==◌, Bool-cases,
  Option-cases, inl, inr, Result, ok, err,
}
use polyglot_ticketing_v.Base.Table.{lookup, write, lookup-write, IsKeyed}
use polyglot_ticketing_v.Base.Db.{DbError, no_rows}
use polyglot_ticketing_v.Base.Db.Laws.{
  Ensures, ensures_pure, ensures_raise, ensures_bind, ensures_statement, ensures_query,
  ensures_transaction, Then, Meets, Ends,
}
use polyglot_ticketing_v.Base.Db.Keeps.{Written}
use polyglot_ticketing_v.Payments.Model.{
  Error, database, OrderStatus, Status, pending, Payment, PaymentRow, PaymentsDb, is_pending,
  order_status_eq,
}
use polyglot_ticketing_v.Payments.Repository.{
  require, claim_first, select_least, is_claimable, coalesce, leased, lease_found, claim_rest,
  claim_next_pending,
}

-- What the claim selects is a row of the table.
select_least_sound :
    (test : ℕ → PaymentRow → Bool) (rows : List (ℕ × PaymentRow)) (k : ℕ) (v : PaymentRow)
    → IsKeyed rows
    → select_least test rows ≡ some (k, v)
    → lookup k rows ≡ some v
unfolding select_least lookup
select_least_sound test [] k v h e = cc
select_least_sound test ((j, w) ∷ rows) k v h e = elim (Option-cases (select_least test rows)) [
  | inl nothing ↦ ground (arith, nothing)
  | inr ((i, u), found) ↦ ground (arith, found, h.0, select_least_sound test rows i u h.1 found)
]

pub order_status_eq_sound : (a b : OrderStatus) → order_status_eq a b ≡ true → a ≡ b
order_status_eq_sound a b h = ground arith

-- One payment, and the order that it is for.
module _ (id order : ℕ) where
  -- The row waits to be settled.
  abbrev pub Waits : Option PaymentRow → Type 0
  Waits none = ⊥
  Waits (some row) = (row.order_id ≡ order) × (row.status ≡ pending)

  abbrev Chosen : Option (ℕ × PaymentRow) → Type 0
  Chosen none = Unit
  Chosen (some (k, row)) = k ≡ id → row.order_id ≡ order

  abbrev pub Named : Option Payment → Type 0
  Named none = Unit
  Named (some claimed) = claimed.id ≡ id → claimed.order_id ≡ order

  abbrev pub Claimed : Result Error (Option Payment) → PaymentsDb → Type 0
  Claimed (ok claimed) t = Waits (lookup id t.payments) × Named claimed
  Claimed (err _) t = Waits (lookup id t.payments)

  Waits-order :
      (x : Option PaymentRow) (row : PaymentRow) → Waits x → x ≡ some row → row.order_id ≡ order
  Waits-order none row w e = absurd w
  Waits-order (some r) row w e = ground arith

  claim_first-Chosen :
      (now : ℕ) (t : PaymentsDb)
      → IsKeyed t.payments
      → Waits (lookup id t.payments)
      → Chosen (claim_first now t)
  unfolding claim_first
  claim_first-Chosen now t keyed w =
      elim (Option-cases (select_least (is_claimable now) t.payments)) [
        | inl nothing ↦ rw nothing tt
        | inr ((k, row), found) ↦
            let at : lookup k t.payments ≡ some row =
              select_least_sound (is_claimable now) t.payments k row keyed found in
            rw found (λ same.
              Waits-order (lookup id t.payments) row w
                (ap (λ x. lookup x t.payments) (sym same) ∙ at))
      ]

  leased-Waits :
      (outcome : Status) (lease_until : ℕ) (row : PaymentRow)
      → Waits (some row)
      → Waits (some (leased outcome lease_until row))
  leased-Waits outcome lease_until row w = w

  lease_found-Waits :
      (outcome : Status) (lease_until k : ℕ) (t : PaymentsDb)
      → Waits (lookup id t.payments)
      → Written
          (λ u. Waits (lookup id u.payments))
          (lease_found outcome lease_until k (lookup k t.payments) t)
  unfolding lease_found
  lease_found-Waits outcome lease_until k t w = elim (Option-cases (lookup k t.payments)) [
    | inl absent ↦ rw absent w
    | inr (row, found) ↦ elim (Bool-cases (is_pending (coalesce row.mock_outcome outcome))) [
      | inl invalid ↦ rw found (rw invalid tt)
      | inr valid ↦
          let row' : PaymentRow = leased outcome lease_until row in
          elim (Bool-cases (id == k)) [
            | inl same ↦
                let at : lookup id (write k row' t.payments) ≡ some row' =
                  ground (arith, lookup-write id k row' t.payments) in
                let was : lookup id t.payments ≡ some row = ground arith in
                rw found (
                  rw valid (
                    subst Waits (sym at)
                      (leased-Waits outcome lease_until row (subst Waits was w))))
            | inr other ↦
                let at : lookup id (write k row' t.payments) ≡ lookup id t.payments =
                  ground (arith, lookup-write id k row' t.payments) in
                rw found (rw valid (subst Waits (sym at) w))
          ]
    ]
  ]

  -- The end of the claim's transaction, begun at `before`.
  module _ (before : PaymentsDb) (w : Waits (lookup id before.payments)) where
    Claimed-Meets :
        (claimed : ℕ × PaymentRow) (t : PaymentsDb)
        (r : Result DbError (Option (Option Status) × PaymentsDb))
        → Written (λ u. Waits (lookup id u.payments)) r
        → Chosen (some claimed)
        → Meets database
            (Then
              (λ _ u. Waits (lookup id u.payments) × Chosen (some claimed))
              (Ends database Claimed before))
            t
            r
    Claimed-Meets claimed t (ok (a, u)) h c = ((h, c), λ e. w, λ e. w)
    Claimed-Meets claimed t (err e) h c = λ e. w

    require_returned-Claimed :
        (claimed : ℕ × PaymentRow) (returned : Option (Option Status))
        → Ensures
            (λ u. Waits (lookup id u.payments) × Chosen (some claimed))
            (require (database no_rows) returned)
            (Then
              (λ _ u. Waits (lookup id u.payments) × Chosen (some claimed))
              (Ends database Claimed before))
    unfolding require
    require_returned-Claimed claimed none = ensures_raise _ (λ u h. w)
    require_returned-Claimed claimed (some m) = ensures_pure m (λ u h. h)

    claim_rest-Claimed :
        (outcome : Status) (lease_until : ℕ) (claimed : Option (ℕ × PaymentRow))
        → Ensures
            (λ u. Waits (lookup id u.payments) × Chosen claimed)
            (claim_rest outcome lease_until claimed)
            (Ends database Claimed before)
    unfolding claim_rest
    claim_rest-Claimed outcome lease_until none =
        ensures_pure none (λ u h. ((h.0, tt), λ e. w, λ e. h.0))
    claim_rest-Claimed outcome lease_until (some (k, row)) =
        ensures_bind (λ _ u. Waits (lookup id u.payments) × Chosen (some (k, row)))
          (ensures_statement database
            (λ u. lease_found outcome lease_until k (lookup k u.payments) u)
            λ u h.
              Claimed-Meets (k, row) u (lease_found outcome lease_until k (lookup k u.payments) u)
                (lease_found-Waits outcome lease_until k u h.0) h.1)
          λ returned.
            ensures_bind (λ _ u. Waits (lookup id u.payments) × Chosen (some (k, row)))
              (require_returned-Claimed (k, row) returned)
              λ m. ensures_pure _ (λ u h. ((h.0, h.1), λ e. w, λ e. h.0))

  pub claim_next_pending-Claimed :
      (now : ℕ) (outcome : Status) (lease_until : ℕ)
      → Ensures
          (λ t. IsKeyed t.payments × Waits (lookup id t.payments))
          (claim_next_pending now outcome lease_until)
          Claimed
  unfolding claim_next_pending
  claim_next_pending-Claimed now outcome lease_until =
      ensures_transaction database
        (λ t p.
          ensures_bind (λ claimed u. Waits (lookup id u.payments) × Chosen claimed)
            (ensures_query database (claim_first now)
              (λ u e. rw e (p.1, claim_first-Chosen now t p.0 p.1)) (λ e u h. p.1))
            (claim_rest-Claimed t p.1 outcome lease_until))
        (λ e t p. p.1)
