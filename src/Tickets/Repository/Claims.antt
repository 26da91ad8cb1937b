-- ===== src/Tickets/Repository/Claims.antt =====
-- `ReserveForOrder` and `ReleaseOrderReservation`: what each outcome says of the ticket's row.
use polyglot_ticketing_v.Base.{
  ℕ, ◌≡◌, ◌⊎◌, refl, ap, ◌∙◌, Bool, true, false, Option, none, some, arith, Bool-cases, inl, inr,
  Text, Result, ok, err,
}
use polyglot_ticketing_v.Base.Table.{lookup, write, lookup-write}
use polyglot_ticketing_v.Base.Db.{DbError, Session, Db, ◌>>=◌, ◌>>◌, statement, raise, pure}
use polyglot_ticketing_v.Base.Db.Laws.{
  Ensures, ensures_pure, ensures_raise, ensures_bind, ensures_statement, ensures_query, Then, Meets,
}
use polyglot_ticketing_v.Tickets.Model.{Error, not_found, reserved, database, TicketRow, TicketsDb}
use polyglot_ticketing_v.Tickets.Repository.{
  require, owner_and_reservation, scan_owner, set_reservation, free_or_own, own, affected_or,
  reserve_for_order, release_order_reservation,
}

-- The row's reservation passes the test, and is set.
abbrev pub Sets : (Option ℕ → Bool) → Option ℕ → Option TicketRow → Option TicketRow → Type 0
Sets test target none after = ⊥
Sets test target (some row) after =
    (test row.reserved_by_order_id ≡ true)
    × (after ≡ some (record row { reserved_by_order_id = target }))

-- There is a row, and its reservation fails the test.
abbrev pub Fails : (Option ℕ → Bool) → Option TicketRow → Type 0
Fails test none = ⊥
Fails test (some row) = test row.reserved_by_order_id ≡ false

-- An UPDATE of a reservation by its answer.
abbrev Updated : ℕ → (Option ℕ → Bool) → Option ℕ → Option TicketRow → Bool → TicketsDb → Type 0
Updated id test target before true t = Sets test target before (lookup id t.tickets)
Updated id test target before false t =
    (lookup id t.tickets ≡ before) × ((before ≡ none) ⊎ Fails test before)

-- What a call that found `before` and left `after` has done, by its outcome: `present` is what it
-- returns where the row is there but fails the test.
abbrev pub Reserved :
    (Option ℕ → Bool)
    → Option ℕ
    → Option TicketRow
    → Result Error (Unit {0})
    → Option TicketRow
    → Type 0
Reserved test target before (ok _) after = Sets test target before after
Reserved test target before (err reserved) after = (after ≡ before) × Fails test before
Reserved test target before (err not_found) after = (before ≡ none) × (after ≡ none)
Reserved test target before (err (database _)) after =
    (after ≡ before) ⊎ Sets test target before after
Reserved test target before (err _) after = ⊥

set_reservation-Meets :
    (id : ℕ) (test : Option ℕ → Bool) (target : Option ℕ) (before : Option TicketRow)
    (Q : Result Error (Unit {0}) → TicketsDb → Type 0) (t : TicketsDb)
    → lookup id t.tickets ≡ before
    → ((e : DbError) → Q (err (database e)) t)
    → ((e : DbError) (u : TicketsDb)
        → Sets test target before (lookup id u.tickets)
        → Q (err (database e)) u)
    → Meets database
        (Then (Updated id test target before) Q)
        t
        (ok (set_reservation test target id (lookup id t.tickets) t))
unfolding set_reservation
set_reservation-Meets id test target none Q t h same set = rw h ((h, inl refl), same, same)
set_reservation-Meets id test target (some row) Q t h same set =
    elim (Bool-cases (test row.reserved_by_order_id)) [
      | inr fail ↦ rw (h, fail) ((h, inr fail), same, same)
      | inl pass ↦
          let row' : TicketRow = record row { reserved_by_order_id = target } in
          let u : TicketsDb = record t { tickets = write id row' t.tickets } in
          let at : lookup id u.tickets ≡ some row' =
            ground (arith, lookup-write id id row' t.tickets) in
          rw (h, pass) ((pass, at), same, λ e. set e u (pass, at))
    ]

owner-none : (before : Option TicketRow) → none ≡ scan_owner before → before ≡ none
owner-none none e = refl
owner-none (some row) e = cc

owner-some :
    (test : Option ℕ → Bool) (before : Option TicketRow) {p : Text × Option ℕ}
    → some p ≡ scan_owner before
    → (before ≡ none) ⊎ Fails test before
    → Fails test before
owner-some test none e h = cc
owner-some test (some row) e (inl h) = cc
owner-some test (some row) e (inr h) = h

-- The error or the answer behind an UPDATE that changed nothing.
module _ (id : ℕ) (test : Option ℕ → Bool) (target : Option ℕ) (before : Option TicketRow)
    (Q : Result Error (Unit {0}) → TicketsDb → Type 0)
    (set : (t : TicketsDb) → Sets test target before (lookup id t.tickets) → Q (ok tt) t)
    (absent : (t : TicketsDb) → before ≡ none → lookup id t.tickets ≡ before → Q (err not_found) t)
    (fault : (e : DbError) (t : TicketsDb) → lookup id t.tickets ≡ before → Q (err (database e)) t)
    (lost_set : (e : DbError) (t : TicketsDb)
      → Sets test target before (lookup id t.tickets)
      → Q (err (database e)) t)
    (present : Db TicketsDb Error (Unit {0}))
    (kept : Ensures (λ t. (lookup id t.tickets ≡ before) × Fails test before) present Q) where
  behind_require :
      (found : Option (Text × Option ℕ))
      → Ensures
          (λ t. Updated id test target before false t × (found ≡ scan_owner before))
          (require not_found found >> present)
          Q
  unfolding require
  behind_require none = ensures_raise not_found (λ t h. absent t (owner-none before h.1) h.0.0)
  behind_require (some p) = record {
    holds = λ s h. kept.holds s (h.0.0, owner-some test before h.1 h.0.1);
  }

  affected_or-Ends :
      (affected : Bool)
      → Ensures (Updated id test target before affected) (affected_or present id affected) Q
  unfolding affected_or
  affected_or-Ends true = ensures_pure tt set
  affected_or-Ends false =
      ensures_bind (λ found t. Updated id test target before false t × (found ≡ scan_owner before))
        (ensures_query database (owner_and_reservation id) (λ t h. (h, ap scan_owner h.0))
          (λ e t h. fault e t h.0))
        behind_require

  pub set_reservation-Ends :
      (s : Session TicketsDb)
      → lookup id s.tables.tickets ≡ before
      → let run =
          statement database (λ db. ok (set_reservation test target id (lookup id db.tickets) db))
          >>= affected_or present id in
        Q (run s).0 (run s).1.tables
  set_reservation-Ends s e =
      let run : Ensures (λ t. lookup id t.tickets ≡ before)
          (statement database (λ db. ok (set_reservation test target id (lookup id db.tickets) db))
            >>= affected_or present id)
          Q =
        ensures_bind (Updated id test target before)
          (ensures_statement database
            (λ db. ok (set_reservation test target id (lookup id db.tickets) db))
            (λ t h. set_reservation-Meets id test target before Q t h (λ e. fault e t h) lost_set))
          affected_or-Ends in
      run.holds s e

-- Whatever goes wrong: a claim that succeeds found the ticket free or already claimed by this order,
-- and sets the claim and nothing else of the row; one refused as reserved found another order's
-- claim, and one refused as not found no row, and neither changes the row; and one that the driver
-- fails has done nothing to the row or what a success does.
pub reserve_for_order-Reserved :
    (ticket order : ℕ) (s : Session TicketsDb)
    → let (r, s') = reserve_for_order ticket order s in
      Reserved
        (free_or_own order)
        (some order)
        (lookup ticket s.tables.tickets)
        r
        (lookup ticket s'.tables.tickets)
unfolding reserve_for_order
reserve_for_order-Reserved ticket order s =
    let before : Option TicketRow = lookup ticket s.tables.tickets in
    set_reservation-Ends ticket (free_or_own order) (some order) before
      (λ r t. Reserved (free_or_own order) (some order) before r (lookup ticket t.tickets))
      (λ t h. h) (λ t n h. (n, h ∙ n)) (λ e t h. inl h) (λ e t h. inr h) (raise reserved)
      (ensures_raise reserved (λ t h. h)) s refl

-- What a release that found `before` and left `after` has done, by its outcome.
abbrev pub Released : ℕ → Option TicketRow → Result Error (Unit {0}) → Option TicketRow → Type 0
Released order before (ok _) after =
    Sets (own order) none before after ⊎ ((after ≡ before) × Fails (own order) before)
Released order before (err not_found) after = (before ≡ none) × (after ≡ none)
Released order before (err (database _)) after =
    (after ≡ before) ⊎ Sets (own order) none before after
Released order before (err _) after = ⊥

-- Whatever goes wrong: a release that succeeds has cleared this order's claim, or has found none of
-- it and left the row alone; one that is refused found no row; and one that the driver fails has
-- done nothing to the row or cleared this order's claim. Another order's claim is never cleared.
pub release_order_reservation-Released :
    (ticket order : ℕ) (s : Session TicketsDb)
    → let (r, s') = release_order_reservation ticket order s in
      Released order (lookup ticket s.tables.tickets) r (lookup ticket s'.tables.tickets)
unfolding release_order_reservation
release_order_reservation-Released ticket order s =
    let before : Option TicketRow = lookup ticket s.tables.tickets in
    set_reservation-Ends ticket (own order) none before
      (λ r t. Released order before r (lookup ticket t.tickets)) (λ t h. inl h)
      (λ t n h. (n, h ∙ n)) (λ e t h. inl h) (λ e t h. inr h) (pure tt)
      (ensures_pure tt (λ t h. inr h)) s refl
