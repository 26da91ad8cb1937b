-- ===== src/Orders/Projection/Next.antt =====
-- The projection of the version that follows the copy's: it is not refused; and of one that does not
-- come after it: it changes nothing.
use mathlib.Core.Bool.{false≢true}
use mathlib.Core.Path.{subst}
use polyglot_ticketing_v.Base.{
  ℕ, zero, suc, ◌≡◌, ◌≤◌, ◌⊎◌, refl, sym, Bool, true, false, some, Result, ok, err, Bool-cases, inl,
  inr, arith,
}
use polyglot_ticketing_v.Base.Int.{ℤ, pos, negsuc, suc_ℤ, pred_ℤ}
use polyglot_ticketing_v.Base.Table.{lookup, write, lookup-write}
use polyglot_ticketing_v.Base.Db.{Session}
use polyglot_ticketing_v.Base.Db.Laws.{Ensures, ensures_bind, ensures_statement, Then, Meets}
use polyglot_ticketing_v.Orders.Model.{Error, database, Ticket, TicketRow, OrdersDb}
use polyglot_ticketing_v.Orders.Projection.{
  ticket_row, checks, applies, upsert, projection_rest, ensure_ticket_projection,
}
use polyglot_ticketing_v.Orders.Projection.Versions.{
  IsNext, Projected, ensure_ticket_projection-Projected,
}

pred_ℤ-suc_ℤ : (z : ℤ) → pred_ℤ (suc_ℤ z) ≡ z
pred_ℤ-suc_ℤ (pos n) = refl
pred_ℤ-suc_ℤ (negsuc zero) = refl
pred_ℤ-suc_ℤ (negsuc (suc n)) = refl

module _ (input : Ticket) (copy : TicketRow)
    (next : suc_ℤ copy.aggregate_version ≡ input.aggregate_version) where
  -- The copy is the ticket; where the driver failed it may be the old one.
  abbrev pub Advanced : Result Error (Unit {0}) → OrdersDb → Type 0
  Advanced (ok _) t = lookup input.id t.tickets ≡ some (ticket_row input)
  Advanced (err (database _)) t =
      (lookup input.id t.tickets ≡ some copy)
      ⊎ (lookup input.id t.tickets ≡ some (ticket_row input))
  Advanced (err _) t = ⊥

  applies-next : applies input (some copy) ≡ true
  unfolding applies
  applies-next = rw (sym next) (rw (pred_ℤ-suc_ℤ copy.aggregate_version) (ground arith))

  upsert-Advanced :
      (t : OrdersDb)
      → lookup input.id t.tickets ≡ some copy
      → Meets database
          (Then {B = Unit {0}}
            (λ affected t.
              (affected ≡ true) × (lookup input.id t.tickets ≡ some (ticket_row input)))
            Advanced)
          t
          (upsert input t)
  unfolding upsert
  upsert-Advanced t there = elim (Bool-cases (checks (ticket_row input))) [
    | inr refused ↦ rw refused (λ e. inl there)
    | inl passed ↦
        let self : lookup input.id (write input.id (ticket_row input) t.tickets)
            ≡ some (ticket_row input) =
          ground (arith, lookup-write input.id input.id (ticket_row input) t.tickets) in
        rw (passed, there, applies-next) ((refl, self), λ e. inl there, λ e. inr self)
  ]

  projection_rest-Advanced :
      (affected : Bool)
      → Ensures
          (λ t. (affected ≡ true) × (lookup input.id t.tickets ≡ some (ticket_row input)))
          (projection_rest input affected)
          Advanced
  unfolding projection_rest
  projection_rest-Advanced true = record { holds = λ s h. h.1 }
  projection_rest-Advanced false = record { holds = λ s h. absurd (false≢true h.0) }

  -- Whatever goes wrong, the next version is projected, or fails in a way that may be tried again.
  pub ensure_ticket_projection-Advanced :
      Ensures (λ t. lookup input.id t.tickets ≡ some copy) (ensure_ticket_projection input) Advanced
  unfolding ensure_ticket_projection
  ensure_ticket_projection-Advanced =
      ensures_bind _ (ensures_statement database (upsert input) upsert-Advanced)
        projection_rest-Advanced

module _ (input : Ticket) (copy : TicketRow) (n m : ℕ) (at : copy.aggregate_version ≡ pos n)
    (version : input.aggregate_version ≡ pos m) (past : m ≤ n) where
  unnext : IsNext input (some copy) → ⊥
  unnext h = ground (arith, h, at, version, past)

  Projected-past :
      (r : Result Error (Unit {0})) (t : OrdersDb)
      → Projected input (some copy) r (lookup input.id t.tickets)
      → lookup input.id t.tickets ≡ some copy
  Projected-past (ok _) t (now, inl next) = absurd (unnext next)
  Projected-past (ok _) t (now, inr same) = sym same
  Projected-past (err (database _)) t (inl same) = same
  Projected-past (err (database _)) t (inr (_, next)) = absurd (unnext next)
  Projected-past (err _) t same = same

  -- Whatever goes wrong, the projection of a past version leaves the copy as it is.
  pub ensure_ticket_projection-past :
      (s : Session OrdersDb)
      → lookup input.id s.tables.tickets ≡ some copy
      → lookup input.id (ensure_ticket_projection input s).1.tables.tickets ≡ some copy
  ensure_ticket_projection-past s there =
      Projected-past (ensure_ticket_projection input s).0
        (ensure_ticket_projection input s).1.tables
        (subst
          (λ before.
            Projected input before (ensure_ticket_projection input s).0
              (lookup input.id (ensure_ticket_projection input s).1.tables.tickets))
          there (ensure_ticket_projection-Projected input s))
