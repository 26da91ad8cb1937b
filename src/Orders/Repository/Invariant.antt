-- ===== src/Orders/Repository/Invariant.antt =====
-- What holds of the tables of Orders between two statements, and the writes that keep it.
use polyglot_ticketing_v.Base.{
  ℕ, ◌≡◌, Bool, true, false, some, arith, ◌==◌, Bool-cases, is_some, inl, inr,
}
use polyglot_ticketing_v.Base.Table.{lookup, write, IsKeyed, lookup-write, write-IsKeyed}
use polyglot_ticketing_v.Orders.Model.{Status, canceled, OrderRow, OrdersDb}

-- The order holds its ticket: it is created, awaits its payment or is complete.
abbrev pub is_blocking : Status → Bool
is_blocking canceled = false
is_blocking _ = true

-- No two orders hold one ticket; keys are unique, and every order's ticket is projected.
pub record IsValid (db : OrdersDb) : Type 0 where
  pub tickets_keyed : IsKeyed db.tickets
  pub orders_keyed : IsKeyed db.orders
  pub referenced :
      (id : ℕ) (row : OrderRow)
      → lookup id db.orders ≡ some row
      → is_some (lookup row.ticket_id db.tickets) ≡ true
  pub exclusive :
      (i j : ℕ) (v w : OrderRow)
      → lookup i db.orders ≡ some v
      → lookup j db.orders ≡ some w
      → is_blocking v.status ≡ true
      → is_blocking w.status ≡ true
      → v.ticket_id ≡ w.ticket_id
      → i ≡ j

-- The row may hold its ticket: no other order does.
abbrev pub IsFree : ℕ → OrderRow → OrdersDb → Type 0
IsFree id row db =
    is_blocking row.status ≡ true
    → (j : ℕ) (w : OrderRow) → lookup j db.orders ≡ some w
    → is_blocking w.status ≡ true
    → row.ticket_id ≡ w.ticket_id
    → id ≡ j

module _ (id : ℕ) (row : OrderRow) (db : OrdersDb) (valid : IsValid db) where
  referenced-write :
      is_some (lookup row.ticket_id db.tickets) ≡ true
      → (i : ℕ) (v : OrderRow) → lookup i (write id row db.orders) ≡ some v
      → is_some (lookup v.ticket_id db.tickets) ≡ true
  referenced-write known i v e = elim (Bool-cases (i == id)) [
    | inl same ↦ ground (arith, lookup-write i id row db.orders)
    | inr other ↦ ground (arith, lookup-write i id row db.orders, valid.referenced i v)
  ]

  exclusive-write :
      IsFree id row db
      → (i j : ℕ) (v w : OrderRow) → lookup i (write id row db.orders) ≡ some v
      → lookup j (write id row db.orders) ≡ some w
      → is_blocking v.status ≡ true
      → is_blocking w.status ≡ true
      → v.ticket_id ≡ w.ticket_id
      → i ≡ j
  exclusive-write free i j v w ev ew bv bw same = ground (
    arith,
    lookup-write i id row db.orders,
    lookup-write j id row db.orders,
    valid.exclusive i j v w,
    λ (b : is_blocking row.status ≡ true). free b j w,
    λ (b : is_blocking row.status ≡ true). free b i v,
  )

  pub write-IsValid :
      is_some (lookup row.ticket_id db.tickets) ≡ true
      → IsFree id row db
      → IsValid (record db { orders = write id row db.orders })
  write-IsValid known free = record {
    tickets_keyed = valid.tickets_keyed;
    orders_keyed = write-IsKeyed id row db.orders valid.orders_keyed;
    referenced = referenced-write known;
    exclusive = exclusive-write free;
  }
