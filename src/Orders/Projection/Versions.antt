-- ===== src/Orders/Projection/Versions.antt =====
-- The projection moves by exactly one version at a time, and a retry of a version is safe.
use polyglot_ticketing_v.Base.{
  ◌≡◌, refl, sym, ap, ◌∙◌, ◌&&◌, ◌⊎◌, Bool, true, false, Option, none, some, arith, Bool-cases, inl,
  inr, text_eq, text_eq_iff, Result, ok, err,
}
use polyglot_ticketing_v.Base.Int.{eqb_ℤ, ltb_ℤ, suc_ℤ}
use polyglot_ticketing_v.Base.Table.{lookup, write, lookup-write}
use polyglot_ticketing_v.Base.Db.{Session}
use polyglot_ticketing_v.Base.Db.Laws.{
  Ensures, ensures_pure, ensures_pure_if, ensures_raise, ensures_bind, ensures_statement,
  ensures_query, Then, Meets,
}
use polyglot_ticketing_v.Orders.Model.{Error, database, Ticket, TicketRow, OrdersDb}
use polyglot_ticketing_v.Orders.Projection.{
  ticket_row, checks, applies, upsert, compare_found, projection_rest, ensure_ticket_projection,
}

-- The row of a ticket at which it is applied anew: none, or the version before.
abbrev pub IsNext : Ticket → Option TicketRow → Type 0
IsNext input none = Unit
IsNext input (some row) = suc_ℤ row.aggregate_version ≡ input.aggregate_version

-- What a call that found `before` and left `after` has done, by its outcome.
abbrev pub Projected :
    Ticket → Option TicketRow → Result Error (Unit {0}) → Option TicketRow → Type 0
Projected input before (ok _) after =
    (after ≡ some (ticket_row input)) × (IsNext input before ⊎ (before ≡ after))
Projected input before (err (database _)) after =
    (after ≡ before) ⊎ ((after ≡ some (ticket_row input)) × IsNext input before)
Projected input before (err _) after = after ≡ before

-- What the upsert has done by its answer.
abbrev Applied : Ticket → Option TicketRow → Bool → OrdersDb → Type 0
Applied input before true t =
    (lookup input.id t.tickets ≡ some (ticket_row input)) × IsNext input before
Applied input before false t = (lookup input.id t.tickets ≡ before) × (applies input before ≡ false)

applies-IsNext :
    (input : Ticket) (before : Option TicketRow) → applies input before ≡ true → IsNext input before
unfolding applies
applies-IsNext input none h = tt
applies-IsNext input (some row) h = ground arith

ticket_row_unique :
    (input : Ticket) (row : TicketRow)
    → (eqb_ℤ row.aggregate_version input.aggregate_version
        && text_eq row.title input.title
        && eqb_ℤ row.price input.price)
      ≡ true
    → row ≡ ticket_row input
ticket_row_unique input row h = ground (arith, text_eq_iff row.title input.title)

module _ (input : Ticket) (before : Option TicketRow) where
  abbrev Ended : Result Error (Unit {0}) → OrdersDb → Type 0
  Ended r t = Projected input before r (lookup input.id t.tickets)

  upsert-Applied :
      (t : OrdersDb)
      → lookup input.id t.tickets ≡ before
      → Meets database (Then (Applied input before) Ended) t (upsert input t)
  unfolding upsert
  upsert-Applied t h = elim (Bool-cases (checks (ticket_row input))) [
    | inr refused ↦ rw refused (λ e. inl h)
    | inl passed ↦ elim (Bool-cases (applies input before)) [
      | inr other ↦ rw (passed, h, other) ((h, other), λ e. inl h, λ e. inl h)
      | inl due ↦
          let next : IsNext input before = applies-IsNext input before due in
          let self : lookup input.id (write input.id (ticket_row input) t.tickets)
              ≡ some (ticket_row input) =
            ground (arith, lookup-write input.id input.id (ticket_row input) t.tickets) in
          rw (passed, h, due) ((self, next), λ e. inl h, λ e. inr (self, next))
    ]
  ]

  compare_found-Ended :
      (existing : Option TicketRow)
      → Ensures
          (λ t.
            (existing ≡ before)
            × (lookup input.id t.tickets ≡ before)
            × (applies input before ≡ false))
          (compare_found input existing)
          Ended
  unfolding compare_found applies
  compare_found-Ended none = ensures_raise _ (λ t h. inl h.1)
  compare_found-Ended (some row) =
      ensures_pure_if _ tt _
        (λ same t h. (h.1 ∙ sym h.0 ∙ ap some (ticket_row_unique input row same), inr (sym h.1)))
        λ other t h. elim (Bool-cases (ltb_ℤ row.aggregate_version input.aggregate_version)) [
          | inl ahead ↦ rw ahead h.1
          | inr conflict ↦ rw conflict h.1
        ]

  projection_rest-Ended :
      (affected : Bool)
      → Ensures (Applied input before affected) (projection_rest input affected) Ended
  unfolding projection_rest
  projection_rest-Ended true = ensures_pure tt (λ t h. (h.0, inl h.1))
  projection_rest-Ended false =
      ensures_bind
        (λ existing t.
          (existing ≡ before)
          × (lookup input.id t.tickets ≡ before)
          × (applies input before ≡ false))
        (ensures_query database _ (λ t h. (h.0, h.0, h.1)) (λ e t h. inl h.0)) compare_found-Ended

-- Whatever goes wrong, a call that succeeds leaves exactly the given row, put there by this call as
-- the first row or the next version of the ticket, or found there; a refused one changes nothing;
-- and one that the driver fails either changes nothing or puts the first row or the next version.
pub ensure_ticket_projection-Projected :
    (input : Ticket) (s : Session OrdersDb)
    → let (r, s') = ensure_ticket_projection input s in
      Projected input (lookup input.id s.tables.tickets) r (lookup input.id s'.tables.tickets)
unfolding ensure_ticket_projection
ensure_ticket_projection-Projected input s =
    let before : Option TicketRow = lookup input.id s.tables.tickets in
    let found : Ensures (λ t. lookup input.id t.tickets ≡ before) (ensure_ticket_projection input)
        (Ended input before) =
      ensures_bind (Applied input before)
        (ensures_statement database (upsert input) (upsert-Applied input before))
        (projection_rest-Ended input before) in
    found.holds s refl
