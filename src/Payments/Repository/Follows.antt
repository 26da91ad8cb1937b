-- ===== src/Payments/Repository/Follows.antt =====
-- What may become of a payment's row, and of all of them.
use mathlib.Core.Path.{subst}
use polyglot_ticketing_v.Base.{
  ℕ, ◌≡◌, ◌⊎◌, refl, ◌∙◌, false, none, some, arith, ◌==◌, Bool-cases, is_some, inl, inr,
}
use polyglot_ticketing_v.Base.Table.{Table, lookup, write, lookup-write, IsKeyed, write-IsKeyed}
use polyglot_ticketing_v.Payments.Model.{pending, OrderRow, PaymentRow, PaymentsDb}

-- The row and what it has become.
pub record Follows (row row' : PaymentRow) : Type 0 where
  pub same_order : row'.order_id ≡ row.order_id
  pub same_outcome : (row.mock_outcome ≡ none) ⊎ (row'.mock_outcome ≡ row.mock_outcome)
  pub same_status :
      (row'.status ≡ row.status) ⊎ ((row.status ≡ pending) × (row'.mock_outcome ≡ some row'.status))

Follows-refl : (row : PaymentRow) → Follows row row
Follows-refl row = record { same_order = refl; same_outcome = inr refl; same_status = inl refl }

Follows-trans : (a b c : PaymentRow) → Follows a b → Follows b c → Follows a c
Follows-trans a b c h k = record {
  same_order = k.same_order ∙ h.same_order;
  same_outcome = let o = h.same_outcome in let o' = k.same_outcome in ground arith;
  same_status =
      let s = h.same_status in let s' = k.same_status in let o' = k.same_outcome in ground arith;
}

-- Every payment of the first tables is there in the second, as a row that follows it, and the
-- payments' key stays unique.
pub record Advances (before after : PaymentsDb) : Type 0 where
  pub keyed : IsKeyed before.payments → IsKeyed after.payments
  pub follows :
      (id : ℕ) (row : PaymentRow)
      → lookup id before.payments ≡ some row
      → (row' : PaymentRow) × (lookup id after.payments ≡ some row') × Follows row row'

pub Advances-refl : (db : PaymentsDb) → Advances db db
Advances-refl db = record { keyed = λ h. h; follows = λ id row e. (row, e, Follows-refl row) }

pub Advances-trans : (a b c : PaymentsDb) → Advances a b → Advances b c → Advances a c
Advances-trans a b c h k = record {
  keyed = λ u. k.keyed (h.keyed u);
  follows = λ id row e.
      let (r, e', l) = h.follows id row e in
      let (r', e'', l') = k.follows id r e' in (r', e'', Follows-trans row r r' l l');
}

-- The orders' table is not looked at.
pub orders-Advances :
    (before db : PaymentsDb) (orders : Table OrderRow)
    → Advances before db
    → Advances before (record db { orders = orders })
orders-Advances before db orders h = record { keyed = h.keyed; follows = h.follows }

-- A row that follows the one there is written over it.
pub write-Advances :
    (id : ℕ) (old row : PaymentRow) (db : PaymentsDb)
    → lookup id db.payments ≡ some old
    → Follows old row
    → Advances db (record db { payments = write id row db.payments })
write-Advances id old row db found on = record {
  keyed = write-IsKeyed id row db.payments;
  follows = λ i r e. elim (Bool-cases (i == id)) [
    | inl same ↦
        let at : lookup i (write id row db.payments) ≡ some row =
          ground (arith, lookup-write i id row db.payments) in
        let was : old ≡ r = ground arith in (row, at, subst (λ x. Follows x row) was on)
    | inr other ↦
        let at : lookup i (write id row db.payments) ≡ some r =
          ground (arith, lookup-write i id row db.payments) in
        (r, at, Follows-refl r)
  ];
}

-- A new row is written where there is none.
pub insert-Advances :
    (id : ℕ) (row : PaymentRow) (db : PaymentsDb)
    → is_some (lookup id db.payments) ≡ false
    → Advances db (record db { payments = write id row db.payments })
insert-Advances id row db absent = record {
  keyed = write-IsKeyed id row db.payments;
  follows = λ i r e. (r, ground (arith, lookup-write i id row db.payments), Follows-refl r);
}
