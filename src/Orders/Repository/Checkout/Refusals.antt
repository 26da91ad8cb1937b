-- ===== src/Orders/Repository/Checkout/Refusals.antt =====
-- A start of a payment that is refused, and the order that it found.
use mathlib.Core.Bool.{false≢true}
use mathlib.Core.Option.{none-ne-some, some-injective}
use mathlib.Core.Path.{subst}
use polyglot_ticketing_v.Base.{
  is_some, ℕ, ◌≡◌, refl, sym, ap, ◌∙◌, Bool, true, false, ◌||◌, Option, none, some, Bool-cases,
  Option-cases, inl, inr, Text, text_eq, Result, ok, err,
}
use polyglot_ticketing_v.Base.Table.{lookup}
use polyglot_ticketing_v.Base.Db.Laws.{
  Ensures, ensures_pure, ensures_pure_if, ensures_raise, ensures_bind, ensures_statement,
  ensures_query, Then, Meets,
}
use polyglot_ticketing_v.Orders.Model.{
  Error, database, order_not_found, order_not_payable, Status, created, canceled, awaiting_payment,
  complete, PaymentOrder, OrderRow, OrdersDb, is_created, is_awaiting_payment, is_canceled,
  is_complete,
}
use polyglot_ticketing_v.Orders.Repository.{
  priced, require, may_start, start_row, start_payment, start_rest, find_payment_order,
}
use polyglot_ticketing_v.Orders.Repository.Checkout.{
  start_row-absent, start_row-fail, start_row-pass, may_start-parts,
}

abbrev pub is_closed : Status → Bool
is_closed status = is_complete status || is_canceled status

-- The user has no such order on a ticket that is there; or has it, complete or canceled. A failure of
-- the driver says nothing.
abbrev pub Refusal : ℕ → Text → OrdersDb → Result Error PaymentOrder → OrdersDb → Type 0
Refusal id user before (ok p) t = Unit
Refusal id user before (err order_not_found) t =
    (t ≡ before) × (find_payment_order id user before ≡ none)
Refusal id user before (err order_not_payable) t =
    (t ≡ before)
    × ((p : PaymentOrder) × (find_payment_order id user before ≡ some p)
        × (is_closed p.status ≡ true))
Refusal id user before (err (database _)) t = Unit
Refusal id user before (err _) t = ⊥

module _ (id : ℕ) (user : Text) (before : OrdersDb) where
  abbrev MayNotStart : Type 0
  MayNotStart =
      (row : OrderRow) → lookup id before.orders ≡ some row → may_start user before row ≡ false

  -- What the UPDATE leaves where it changes no row.
  abbrev Started : Option PaymentOrder → OrdersDb → Type 0
  Started (some p) t = Unit
  Started none t = (t ≡ before) × MayNotStart

  closed :
      (status : Status)
      → is_created status ≡ false
      → is_awaiting_payment status ≡ false
      → is_closed status ≡ true
  closed created c a = absurd (false≢true (sym c))
  closed awaiting_payment c a = absurd (false≢true (sym a))
  closed canceled c a = refl
  closed complete c a = refl

  priced-parts :
      (row : OrderRow) (p : PaymentOrder)
      → priced id user before (some row) ≡ some p
      → (text_eq row.user_id user ≡ true)
        × (is_some (lookup row.ticket_id before.tickets) ≡ true)
        × (p.status ≡ row.status)
  priced-parts row p found = elim (Bool-cases (text_eq row.user_id user)) [
    | inr other ↦ absurd (none-ne-some p (sym (rw other refl) ∙ found))
    | inl own ↦ elim (Option-cases (lookup row.ticket_id before.tickets)) [
      | inl unknown ↦ absurd (none-ne-some p (sym (rw own (rw unknown refl)) ∙ found))
      | inr (ticket, known) ↦
          let offered : priced id user before (some row)
              ≡ some (record {
                id = id;
                price = ticket.price;
                status = row.status;
                user_id = row.user_id;
              }) =
            rw own (rw known refl) in
          (
            own,
            ap is_some known,
            sym (ap (λ (q : PaymentOrder). q.status) (some-injective _ p (sym offered ∙ found))),
          )
    ]
  ]

  find-closed :
      (p : PaymentOrder)
      → find_payment_order id user before ≡ some p
      → MayNotStart
      → is_awaiting_payment p.status ≡ false
      → is_closed p.status ≡ true
  unfolding find_payment_order may_start
  find-closed p found not_now waits = elim (Option-cases (lookup id before.orders)) [
    | inl absent ↦ absurd (none-ne-some p (sym (ap (priced id user before) absent) ∙ found))
    | inr (row, there) ↦
        let (own, known, same) =
          priced-parts row p (sym (ap (priced id user before) there) ∙ found) in
        let late : is_created row.status ≡ false = sym (rw (own, known) refl) ∙ not_now row there in
        closed p.status (ap is_created same ∙ late) waits
  ]

  start_row-Started : let (started, t) = start_row id user before in Started started t
  start_row-Started = elim (Option-cases (lookup id before.orders)) [
    | inl absent ↦
        rw (start_row-absent id user before absent)
          (refl, λ row there. absurd (none-ne-some row (sym absent ∙ there)))
    | inr (row, there) ↦ elim (Bool-cases (may_start user before row)) [
      | inr fail ↦ rw (start_row-fail id user before row there fail) (
        refl,
        λ row' there'.
            subst (λ r. may_start user before r ≡ false)
              (some-injective row row' (sym there ∙ there')) fail,
      )
      | inl pass ↦
          let (_, (ticket, known)) = may_start-parts id user before row pass in
          rw (start_row-pass id user before row ticket there known pass) tt
    ]
  ]

  require-Refusal :
      (found : Option PaymentOrder)
      → Ensures
          (λ t. Started none t × (found ≡ find_payment_order id user before))
          (require order_not_found found)
          (Then
            (λ p t. Started none t × (find_payment_order id user before ≡ some p))
            (Refusal id user before))
  unfolding require
  require-Refusal none = ensures_raise order_not_found (λ t h. (h.0.0, sym h.1))
  require-Refusal (some p) = ensures_pure p (λ t h. (h.0, sym h.1))

  start_rest-Refusal :
      (started : Option PaymentOrder)
      → Ensures (Started started) (start_rest id user started) (Refusal id user before)
  unfolding start_rest
  start_rest-Refusal (some p) = ensures_pure p (λ t h. tt)
  start_rest-Refusal none =
      ensures_bind (λ found t. Started none t × (found ≡ find_payment_order id user before))
        (ensures_query database (find_payment_order id user)
          (λ t h. (h, ap (find_payment_order id user) h.0)) (λ e t h. tt))
        (λ found.
          ensures_bind (λ p t. Started none t × (find_payment_order id user before ≡ some p))
            (require-Refusal found)
            (λ p.
              ensures_pure_if (is_awaiting_payment p.status) p order_not_payable (λ c t h. tt)
                (λ c t h. (h.0.0, (p, h.1, find-closed p h.1 h.0.1 c)))))

-- What a refused start of a payment says of the order, as it was found.
pub start_payment-Refusal :
    (id : ℕ) (user : Text) (before : OrdersDb)
    → Ensures (λ t. t ≡ before) (start_payment id user) (Refusal id user before)
unfolding start_payment
start_payment-Refusal id user before =
    ensures_bind (Started id user before)
      (ensures_statement database (λ db. ok (start_row id user db))
        (λ t same.
          subst
            (λ u.
              Meets database (Then (Started id user before) (Refusal id user before)) u
                (ok (start_row id user u)))
            (sym same) (start_row-Started id user before, λ e. tt, λ e. tt)))
      (start_rest-Refusal id user before)
