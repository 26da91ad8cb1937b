-- ===== src/Orders/Repository/Evolves.antt =====
-- What may become of an order's row, and of all of them.
use mathlib.Core.Path.{subst}
use polyglot_ticketing_v.Base.{
  ℕ, ◌≡◌, refl, ◌∙◌, false, some, arith, ◌==◌, Bool-cases, is_some, inl, inr,
}
use polyglot_ticketing_v.Base.Table.{lookup, write, lookup-write}
use polyglot_ticketing_v.Orders.Model.{
  Status, created, canceled, complete, awaiting_payment, OrderRow, OrdersDb,
}

-- The second status is the first, or may follow it.
abbrev pub IsLater : Status → Status → Type 0
IsLater created _ = Unit
IsLater awaiting_payment created = ⊥
IsLater awaiting_payment _ = Unit
IsLater canceled canceled = Unit
IsLater canceled _ = ⊥
IsLater complete complete = Unit
IsLater complete _ = ⊥

IsLater-refl : (a : Status) → IsLater a a
IsLater-refl created = tt
IsLater-refl _ = tt

IsLater-trans : (a b c : Status) → IsLater a b → IsLater b c → IsLater a c
IsLater-trans created b c h k = tt
IsLater-trans awaiting_payment created c h k = absurd h
IsLater-trans awaiting_payment awaiting_payment c h k = k
IsLater-trans awaiting_payment canceled canceled h k = tt
IsLater-trans awaiting_payment canceled _ h k = absurd k
IsLater-trans awaiting_payment complete complete h k = tt
IsLater-trans awaiting_payment complete _ h k = absurd k
IsLater-trans canceled canceled c h k = k
IsLater-trans canceled _ c h k = absurd h
IsLater-trans complete complete c h k = k
IsLater-trans complete _ c h k = absurd h

pub record Continues (row row' : OrderRow) : Type 0 where
  pub same_deadline : row'.expires_at ≡ row.expires_at
  pub same_user : row'.user_id ≡ row.user_id
  pub same_ticket : row'.ticket_id ≡ row.ticket_id
  pub later : IsLater row.status row'.status

Continues-trans : {a b c : OrderRow} → Continues a b → Continues b c → Continues a c
Continues-trans {a} {b} {c} h k = record {
  same_deadline = k.same_deadline ∙ h.same_deadline;
  same_user = k.same_user ∙ h.same_user;
  same_ticket = k.same_ticket ∙ h.same_ticket;
  later = IsLater-trans a.status b.status c.status h.later k.later;
}

Continues-refl : (row : OrderRow) → Continues row row
Continues-refl row = record {
  same_deadline = refl;
  same_user = refl;
  same_ticket = refl;
  later = IsLater-refl row.status;
}

-- Every order of the first tables continues in the second.
pub record Evolves (before after : OrdersDb) : Type 0 where
  pub continues :
      (id : ℕ) (row : OrderRow)
      → lookup id before.orders ≡ some row
      → (row' : OrderRow) × (lookup id after.orders ≡ some row') × Continues row row'

pub Evolves-refl : (db : OrdersDb) → Evolves db db
Evolves-refl db = record { continues = λ id row e. (row, e, Continues-refl row) }

pub Evolves-trans : (a b c : OrdersDb) → Evolves a b → Evolves b c → Evolves a c
Evolves-trans a b c h k = record {
  continues = λ id row e.
      let (r, e', l) = h.continues id row e in
      let (r', e'', l') = k.continues id r e' in (r', e'', Continues-trans l l');
}

-- A row that continues the one there is written over it.
pub write-Evolves :
    (id : ℕ) (old row : OrderRow) (db : OrdersDb)
    → lookup id db.orders ≡ some old
    → Continues old row
    → Evolves db (record db { orders = write id row db.orders })
write-Evolves id old row db found on = record {
  continues = λ i r e. elim (Bool-cases (i == id)) [
    | inl same ↦
        let at : lookup i (write id row db.orders) ≡ some row =
          ground (arith, lookup-write i id row db.orders) in
        let was : old ≡ r = ground arith in (row, at, subst (λ x. Continues x row) was on)
    | inr other ↦
        let at : lookup i (write id row db.orders) ≡ some r =
          ground (arith, lookup-write i id row db.orders) in
        (r, at, Continues-refl r)
  ];
}

-- A new row is written where there is none.
pub insert-Evolves :
    (id : ℕ) (row : OrderRow) (db : OrdersDb)
    → is_some (lookup id db.orders) ≡ false
    → Evolves db (record db { orders = write id row db.orders })
insert-Evolves id row db absent = record {
  continues = λ i r e. (r, ground (arith, lookup-write i id row db.orders), Continues-refl r);
}
