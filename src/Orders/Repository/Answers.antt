-- ===== src/Orders/Repository/Answers.antt =====
-- What the operations on one order answer is what its row holds when they return.
use polyglot_ticketing_v.Base.{
  ℕ, ◌≡◌, refl, sym, Bool, true, false, Option, none, some, arith, Bool-cases, Option-cases, inl,
  inr, Text, Result, ok, err,
}
use polyglot_ticketing_v.Base.Table.{lookup, write, lookup-write}
use polyglot_ticketing_v.Base.Db.{Db, ◌>>=◌, query}
use polyglot_ticketing_v.Base.Db.Laws.{
  Ensures, ensures_pure, ensures_raise, ensures_pure_if, ensures_bind, ensures_statement,
  ensures_query, Then,
}
use polyglot_ticketing_v.Orders.Model.{
  Error, database, order_not_found, Status, canceled, complete, Order, PaymentOutcome, failed,
  succeeded, unspecified, PaymentResolutionResult, ExpirationResult, OrderRow, OrdersDb,
  is_canceled, is_complete, created, awaiting_payment,
}
use polyglot_ticketing_v.Orders.Repository.{
  update_status, update_order, find_order, get_by_id, get_by_id_and_user, require, expire_rest,
  expire_created_order, has_outcome, resolve_rest, resolve_payment, cancel_rest,
  cancel_by_id_and_user,
}

-- The order is the row under its id.
abbrev pub Shown : Order → OrdersDb → Type 0
Shown o db =
    lookup o.id db.orders
    ≡ some (record {
      expires_at = o.expires_at;
      user_id = o.user_id;
      ticket_id = o.ticket_id;
      status = o.status;
    })

-- An order that a statement may answer, with a fact of its status.
abbrev Found : (Status → Bool) → Option Order → OrdersDb → Type 0
Found test none db = Unit
Found test (some o) db = Shown o db × (test o.status ≡ true)

abbrev any : Status → Bool
any _ = true

find_order-Found :
    (id : ℕ) (test : OrderRow → Bool) (db : OrdersDb) → Found any (find_order id test db) db
unfolding find_order
find_order-Found id test db = elim (Option-cases (lookup id db.orders)) [
  | inl absent ↦ rw absent tt
  | inr (row, found) ↦ elim (Bool-cases (test row)) [
    | inr fail ↦ rw found (rw fail tt)
    | inl pass ↦ rw found (rw pass (found, refl))
  ]
]

update_status-Found :
    (id : ℕ) (test : OrderRow → Bool) (target : Status) (kind : Status → Bool) (db : OrdersDb)
    → kind target ≡ true
    → let (order, db') = update_status id test target db in Found kind order db'
unfolding update_status
update_status-Found id test target kind db k = elim (Option-cases (lookup id db.orders)) [
  | inl absent ↦ rw absent tt
  | inr (row, found) ↦ elim (Bool-cases (test row)) [
    | inr fail ↦ rw found (rw fail tt)
    | inl pass ↦
        let row' : OrderRow = record row { status = target } in
        let at : lookup id (write id row' db.orders) ≡ some row' =
          ground (arith, lookup-write id id row' db.orders) in
        rw found (rw pass (at, k))
  ]
]

-- A result that, where there is one, is of a kind.
abbrev pub Given : {A : Type 0} → (A → OrdersDb → Type 0) → Result Error A → OrdersDb → Type 0
Given Q (ok a) t = Q a t
Given Q (err _) t = Unit

module _ {B : Type 0} (Q : B → OrdersDb → Type 0) where
  update_order-Found :
      (id : ℕ) (test : OrderRow → Bool) (target : Status) (kind : Status → Bool)
      → kind target ≡ true
      → Ensures (λ _. Unit {0}) (update_order id test target) (Then (Found kind) (Given Q))
  unfolding update_order
  update_order-Found id test target kind k =
      ensures_statement database _
        λ db _. (update_status-Found id test target kind db k, λ e. tt, λ e. tt)

  require-Found :
      (found : Option Order)
      → Ensures (Found any found) (require order_not_found found) (Then Shown (Given Q))
  unfolding require
  require-Found none = ensures_raise order_not_found (λ t h. tt)
  require-Found (some o) = ensures_pure o (λ t h. h.0)

  -- A read of one row, and what is made of it.
  read-Given :
      (id : ℕ) (test : OrderRow → Bool) (next : Order → Db OrdersDb Error B)
      → ((o : Order) → Ensures (Shown o) (next o) (Given Q))
      → Ensures
          (λ _. Unit {0})
          (query database (find_order id test)
            >>= (λ found. require order_not_found found)
            >>= next)
          (Given Q)
  read-Given id test next k =
      ensures_bind Shown
        (ensures_bind (Found any)
          (ensures_query database _ (λ db _. find_order-Found id test db) (λ e db _. tt))
          require-Found)
        k

-- What a cancellation answers.
abbrev pub IsCanceledOrder : Order → OrdersDb → Type 0
IsCanceledOrder o t = Shown o t × (is_canceled o.status ≡ true)

cancel_rest_sound :
    (id : ℕ) (user : Text) (updated : Option Order)
    → Ensures (Found is_canceled updated) (cancel_rest id user updated) (Given IsCanceledOrder)
unfolding cancel_rest get_by_id_and_user
cancel_rest_sound id user (some o) = ensures_pure o (λ t h. h)
cancel_rest_sound id user none =
    read-Given IsCanceledOrder id _ _
      (λ o. ensures_pure_if (is_canceled o.status) o _ (λ c t h. (h, c)) (λ c t h. tt))

-- The order that a cancellation answers is, as it returns, the row under its id, and is canceled;
-- so it is whether this call canceled it or an earlier one.
pub cancel_by_id_and_user_sound :
    (id : ℕ) (user : Text)
    → Ensures (λ _. Unit {0}) (cancel_by_id_and_user id user) (Given IsCanceledOrder)
unfolding cancel_by_id_and_user
cancel_by_id_and_user_sound id user =
    ensures_bind (Found is_canceled)
      (update_order-Found IsCanceledOrder id _ canceled is_canceled refl)
      (cancel_rest_sound id user)

-- What an expiry answers: the order, with its ticket to be released just where it is canceled.
abbrev pub IsExpiry : ExpirationResult → OrdersDb → Type 0
IsExpiry r t = Shown r.order t × (r.should_release_ticket ≡ is_canceled r.order.status)

expire_rest_sound :
    (id : ℕ) (updated : Option Order)
    → Ensures (Found is_canceled updated) (expire_rest id updated) (Given IsExpiry)
unfolding expire_rest get_by_id
expire_rest_sound id (some o) = ensures_pure _ (λ t h. (h.0, sym h.1))
expire_rest_sound id none = read-Given IsExpiry id _ _ (λ o. ensures_pure _ (λ t h. (h, refl)))

-- The order that an expiry answers is, as it returns, the row under its id, and the ticket is to be
-- released just where that order is canceled.
pub expire_created_order_sound :
    (now id : ℕ) → Ensures (λ _. Unit {0}) (expire_created_order now id) (Given IsExpiry)
unfolding expire_created_order
expire_created_order_sound now id =
    ensures_bind (Found is_canceled) (update_order-Found IsExpiry id _ canceled is_canceled refl)
      (expire_rest_sound id)

-- What a resolution to an outcome answers.
abbrev pub IsResolution : PaymentOutcome → PaymentResolutionResult → OrdersDb → Type 0
IsResolution outcome r t =
    Shown r.order t
    × (has_outcome outcome r.order.status ≡ true)
    × (r.should_release_ticket ≡ is_canceled r.order.status)

abbrev Releases : PaymentOutcome → Bool → Type 0
Releases outcome release =
    (status : Status) → has_outcome outcome status ≡ true → release ≡ is_canceled status

complete-Releases : Releases succeeded false
complete-Releases complete c = refl
complete-Releases created c = refl
complete-Releases awaiting_payment c = refl
complete-Releases canceled c = c

resolve_rest_sound :
    (id : ℕ) (outcome : PaymentOutcome) (release : Bool) (updated : Option Order)
    → Releases outcome release
    → Ensures
        (Found (has_outcome outcome) updated)
        (resolve_rest id outcome release updated)
        (Given (IsResolution outcome))
unfolding resolve_rest get_by_id
resolve_rest_sound id outcome release (some o) k =
    ensures_pure _ (λ t h. (h.0, h.1, k o.status h.1))
resolve_rest_sound id outcome release none k = read-Given (IsResolution outcome) id _ _ (λ o.
    ensures_pure_if (has_outcome outcome o.status) _ _ (λ c t h. (h, c, k o.status c))
      (λ c t h. tt))

-- The order that the resolution of a payment answers is, as it returns, the row under its id; its
-- status is the one that the outcome calls for; and the ticket is to be released just where it is
-- canceled.
pub resolve_payment_sound :
    (id : ℕ) (outcome : PaymentOutcome)
    → Ensures (λ _. Unit {0}) (resolve_payment id outcome) (Given (IsResolution outcome))
unfolding resolve_payment
resolve_payment_sound id failed =
    ensures_bind (Found is_canceled)
      (update_order-Found (IsResolution failed) id _ canceled is_canceled refl)
      (λ updated. resolve_rest_sound id failed true updated (λ status c. sym c))
resolve_payment_sound id succeeded =
    ensures_bind (Found is_complete)
      (update_order-Found (IsResolution succeeded) id _ complete is_complete refl)
      (λ updated. resolve_rest_sound id succeeded false updated complete-Releases)
resolve_payment_sound id unspecified = ensures_raise _ (λ t h. tt)
