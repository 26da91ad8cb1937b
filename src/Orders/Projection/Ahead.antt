-- ===== src/Orders/Projection/Ahead.antt =====
-- A ticket whose version is more than one ahead of the copy: no call projects it.
use mathlib.Core.Bool.{false≢true}
use polyglot_ticketing_v.Base.{
  ℕ, suc, ◌≡◌, ◌+◌, refl, sym, ap, ◌∙◌, Bool, true, false, Option, some, Result, ok, err,
  Bool-cases, inl, inr, arith,
}
use polyglot_ticketing_v.Base.Int.{pos, ltb_ℤ}
use polyglot_ticketing_v.Base.Table.{lookup}
use polyglot_ticketing_v.Base.Db.Laws.{
  Ensures, ensures_pure_if, ensures_bind, ensures_statement, ensures_query, Then, Meets,
}
use polyglot_ticketing_v.Orders.Model.{
  Error, database, projection_out_of_order, Ticket, TicketRow, OrdersDb,
}
use polyglot_ticketing_v.Orders.Projection.{
  ticket_row, checks, applies, upsert, compare_found, projection_rest, ensure_ticket_projection,
}

-- The ticket's version is more than one ahead of the copy's.
abbrev pub IsAhead : Ticket → TicketRow → Type 0
IsAhead input copy =
    (n : ℕ) × (k : ℕ) × (copy.aggregate_version ≡ pos n)
    × (input.aggregate_version ≡ pos (suc (suc (n + k))))

-- The call has failed in a way that Tickets tries again, and has changed nothing.
abbrev pub Refused : OrdersDb → Result Error (Unit {0}) → OrdersDb → Type 0
Refused before (ok _) t = ⊥
Refused before (err projection_out_of_order) t = t ≡ before
Refused before (err (database _)) t = t ≡ before
Refused before (err _) t = ⊥

module _ (input : Ticket) (copy : TicketRow) (before : OrdersDb)
    (there : lookup input.id before.tickets ≡ some copy) (ahead : IsAhead input copy) where
  not-applies : applies input (lookup input.id before.tickets) ≡ false
  unfolding applies
  not-applies = let (n, k, at, next) = ahead in rw there (rw (at, next) (ground arith))

  upsert-ahead :
      (t : OrdersDb)
      → t ≡ before
      → Meets database
          (Then {B = Unit {0}} (λ affected t. (affected ≡ false) × (t ≡ before)) (Refused before))
          t
          (upsert input t)
  unfolding upsert
  upsert-ahead t e = elim (Bool-cases (checks (ticket_row input))) [
    | inr bad ↦ rw bad (λ _. e)
    | inl good ↦ rw (good, e, not-applies) ((refl, refl), λ _. refl, λ _. refl)
  ]

  is-behind : ltb_ℤ copy.aggregate_version input.aggregate_version ≡ true
  is-behind = let (n, k, at, next) = ahead in rw (at, next) (ground arith)

  compare_found-ahead :
      (found : Option TicketRow)
      → found ≡ some copy
      → Ensures (λ t. t ≡ before) (compare_found input found) (Refused before)
  unfolding compare_found
  compare_found-ahead found e =
      let (n, k, at, next) = ahead in
      rw e (
        ensures_pure_if _ _ _ (λ same t h. absurd (ground (arith, at, next, same)))
          (λ other t h. rw is-behind h))

  projection_rest-ahead :
      (affected : Bool)
      → Ensures
          (λ t. (affected ≡ false) × (t ≡ before))
          (projection_rest input affected)
          (Refused before)
  unfolding projection_rest
  projection_rest-ahead true = record { holds = λ s h. absurd (false≢true (sym h.0)) }
  projection_rest-ahead false =
      ensures_bind (λ found t. (found ≡ some copy) × (t ≡ before))
        (ensures_query database _
          (λ t h. (ap (λ (db : OrdersDb). lookup input.id db.tickets) h.1 ∙ there, h.1))
          (λ e t h. h.1))
        λ found. record { holds = λ s h. (compare_found-ahead found h.0).holds s h.1 }

  -- Whatever goes wrong, the projection fails in a way that may be tried again, and changes nothing.
  pub ensure_ticket_projection-ahead :
      Ensures (λ t. t ≡ before) (ensure_ticket_projection input) (Refused before)
  unfolding ensure_ticket_projection
  ensure_ticket_projection-ahead =
      ensures_bind (λ affected t. (affected ≡ false) × (t ≡ before))
        (ensures_statement database (upsert input) upsert-ahead) projection_rest-ahead
