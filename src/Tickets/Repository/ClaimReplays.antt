-- ===== src/Tickets/Repository/ClaimReplays.antt =====
-- Replays of a claim and of its release.
use polyglot_ticketing_v.Base.{
  ℕ, ◌≡◌, refl, ap, ◌∙◌, Bool, true, false, Option, none, some, arith, Bool-cases, Option-cases,
  inl, inr, ok,
}
use polyglot_ticketing_v.Base.Table.{lookup, write, lookup-write, write_again}
use polyglot_ticketing_v.Base.Db.{◌>>=◌, statement, query, raise, pure}
use polyglot_ticketing_v.Base.Db.Keeps.{Keeps-pure, Keeps-raise}
use polyglot_ticketing_v.Base.Db.Retry.{calm, RetrySafe, write-RetrySafe}
use polyglot_ticketing_v.Tickets.Model.{reserved, database, TicketRow, TicketsDb}
use polyglot_ticketing_v.Tickets.Repository.{
  require, set_reservation, free_or_own, own, affected_or, reserve_for_order,
  release_order_reservation,
}
use polyglot_ticketing_v.Tickets.Repository.Frozen.{affected_or-Keeps}

-- An UPDATE of the reservation on the tables.
abbrev set_on : (Option ℕ → Bool) → Option ℕ → ℕ → TicketsDb → Bool × TicketsDb
set_on test target id db = set_reservation test target id (lookup id db.tickets) db

module _ (test : Option ℕ → Bool) (target : Option ℕ) (id : ℕ) (db : TicketsDb) where
  set_on-absent : lookup id db.tickets ≡ none → set_on test target id db ≡ (false, db)
  unfolding set_reservation
  set_on-absent absent = rw absent refl

  set_on-fail :
      (row : TicketRow)
      → lookup id db.tickets ≡ some row
      → test row.reserved_by_order_id ≡ false
      → set_on test target id db ≡ (false, db)
  unfolding set_reservation
  set_on-fail row found fail = rw found (rw fail refl)

  abbrev set_to : TicketRow → TicketsDb
  set_to row = record db {
    tickets = write id (record row { reserved_by_order_id = target }) db.tickets;
  }

  set_on-pass :
      (row : TicketRow)
      → lookup id db.tickets ≡ some row
      → test row.reserved_by_order_id ≡ true
      → set_on test target id db ≡ (true, set_to row)
  unfolding set_reservation
  set_on-pass row found pass = rw found (rw pass refl)

  set_to-lookup :
      (row : TicketRow)
      → lookup id (set_to row).tickets ≡ some (record row { reserved_by_order_id = target })
  set_to-lookup row =
      ground (arith, lookup-write id id (record row { reserved_by_order_id = target }) db.tickets)

-- A claim that is set passes its own test, and is set again to no effect.
claim_again :
    (ticket order : ℕ) (db : TicketsDb)
    → set_on
        (free_or_own order)
        (some order)
        ticket
        (set_on (free_or_own order) (some order) ticket db).1
      ≡ set_on (free_or_own order) (some order) ticket db
unfolding free_or_own
claim_again ticket order db = elim (Option-cases (lookup ticket db.tickets)) [
  | inl absent ↦
      let unchanged = set_on-absent (free_or_own order) (some order) ticket db absent in
      rw (unchanged, unchanged) refl
  | inr (row, found) ↦ elim (Bool-cases (free_or_own order row.reserved_by_order_id)) [
    | inr fail ↦
        let unchanged = set_on-fail (free_or_own order) (some order) ticket db row found fail in
        rw (unchanged, unchanged) refl
    | inl pass ↦
        let row' : TicketRow = record row { reserved_by_order_id = some order } in
        let db' : TicketsDb = set_to (free_or_own order) (some order) ticket db row in
        let first = set_on-pass (free_or_own order) (some order) ticket db row found pass in
        let at : lookup ticket db'.tickets ≡ some row' =
          set_to-lookup (free_or_own order) (some order) ticket db row in
        let mine : free_or_own order (some order) ≡ true = ground arith in
        let second = set_on-pass (free_or_own order) (some order) ticket db' row' at mine in
        let same : set_to (free_or_own order) (some order) ticket db' row' ≡ db' =
          ap (λ rows. record db { tickets = rows }) (write_again ticket row' db.tickets) in
        rw first (second ∙ ap (λ x. (true, x)) same)
  ]
]

pub reserve_for_order-RetrySafe : (ticket order : ℕ) → RetrySafe (reserve_for_order ticket order)
unfolding reserve_for_order
reserve_for_order-RetrySafe ticket order =
    write-RetrySafe database (set_on (free_or_own order) (some order) ticket)
      (affected_or (raise reserved) ticket)
      (λ I affected. affected_or-Keeps I (raise reserved) ticket affected (Keeps-raise I reserved))
      (λ t. unfold statement in rw (claim_again ticket order t) refl)

-- A claim that is released fails the release's test, and the ticket is found.
release_again :
    (ticket order : ℕ) (db : TicketsDb)
    → (statement database (λ u. ok (set_on (own order) none ticket u))
          >>= affected_or (pure tt) ticket)
        (calm (set_on (own order) none ticket db).1)
      ≡ (statement database (λ u. ok (set_on (own order) none ticket u))
            >>= affected_or (pure tt) ticket)
          (calm db)
unfolding statement query affected_or require own
release_again ticket order db = elim (Option-cases (lookup ticket db.tickets)) [
  | inl absent ↦
      let unchanged = set_on-absent (own order) none ticket db absent in
      rw (unchanged, unchanged) refl
  | inr (row, found) ↦ elim (Bool-cases (own order row.reserved_by_order_id)) [
    | inr fail ↦
        let unchanged = set_on-fail (own order) none ticket db row found fail in
        rw (unchanged, unchanged) refl
    | inl pass ↦
        let row' : TicketRow = record row { reserved_by_order_id = none } in
        let db' : TicketsDb = set_to (own order) none ticket db row in
        let at : lookup ticket db'.tickets ≡ some row' =
          set_to-lookup (own order) none ticket db row in
        rw (set_on-pass (own order) none ticket db row found pass)
          (rw (set_on-fail (own order) none ticket db' row' at refl) (rw at refl))
  ]
]

pub release_order_reservation-RetrySafe :
    (ticket order : ℕ) → RetrySafe (release_order_reservation ticket order)
unfolding release_order_reservation
release_order_reservation-RetrySafe ticket order =
    write-RetrySafe database (set_on (own order) none ticket) (affected_or (pure tt) ticket)
      (λ I affected. affected_or-Keeps I (pure tt) ticket affected (Keeps-pure I tt))
      (release_again ticket order)
