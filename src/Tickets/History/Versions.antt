-- ===== src/Tickets/History/Versions.antt =====
-- The rows of the tickets through any history: their ranges, their owners and their versions.
use mathlib.Core.Option.{some-injective, none-ne-some}
use mathlib.Core.Path.{subst}
use mathlib.Core.Bool.{false≢true}
use polyglot_ticketing_v.Base.{
  ℕ, ◌≡◌, ◌≤◌, refl, sym, ap, ◌∙◌, true, some, [], ◌∷◌, arith, Bool-cases, ◌==◌, is_some, inl, inr,
}
use polyglot_ticketing_v.Base.Table.{lookup, write, lookup-write}
use polyglot_ticketing_v.Base.Db.{Session}
use polyglot_ticketing_v.Tickets.Model.{TicketRow, TicketsDb}
use polyglot_ticketing_v.Tickets.Repository.{price_ok, max_version, edited_row}
use polyglot_ticketing_v.Tickets.Repository.Rows.{
  Preserved, create-Keeps, update-Keeps, update_with_idempotency-Keeps, reserve_for_order-Keeps,
  release_order_reservation-Keeps,
}
use polyglot_ticketing_v.Tickets.History.{
  Call, insert, edit, edit_once, reserve, release, run_call, History, run,
}

module _ (I : TicketsDb → Type 0) (p : Preserved I) where
  run_call-Keeps : (call : Call) (s : Session TicketsDb) → I s.tables → I (run_call call s)
  unfolding run_call
  run_call-Keeps (insert random_id input) s = (create-Keeps I p random_id input).holds s
  run_call-Keeps (edit id input) s = (update-Keeps I p id input).holds s
  run_call-Keeps (edit_once id input) s = (update_with_idempotency-Keeps I p id input).holds s
  run_call-Keeps (reserve id order) s = (reserve_for_order-Keeps I p.claimed id order).holds s
  run_call-Keeps (release id order) s =
      (release_order_reservation-Keeps I p.claimed id order).holds s

  run-Keeps : (h : History) (db : TicketsDb) → I db → I (run h db)
  unfolding run
  run-Keeps [] db i = i
  run-Keeps ((call, faults) ∷ rest) db i =
      run-Keeps rest _ (run_call-Keeps call (record { tables = db; faults = faults }) i)

-- The version is a positive BIGINT, and the price is positive.
abbrev pub IsInRange : TicketRow → Type 0
IsInRange row =
    (1 ≤ row.aggregate_version)
    × (row.aggregate_version ≤ max_version)
    × (price_ok row.price ≡ true)

-- All rows are.
abbrev pub InRange : TicketsDb → Type 0
InRange db = (id : ℕ) (row : TicketRow) → lookup id db.tickets ≡ some row → IsInRange row

write-InRange :
    (id : ℕ) (row : TicketRow) (db : TicketsDb)
    → IsInRange row
    → InRange db
    → InRange (record db { tickets = write id row db.tickets })
write-InRange id row db good h = λ i r e. elim (Bool-cases (i == id)) [
  | inl same ↦
      let was : row ≡ r = ground (arith, lookup-write i id row db.tickets) in
      subst IsInRange was good
  | inr other ↦ h i r (ground (arith, lookup-write i id row db.tickets))
]

InRange-Preserved : Preserved InRange
InRange-Preserved = record {
  inserted =
      λ id input db good absent h. write-InRange id _ db (ground arith, ground arith, good) h;
  edited = λ id input row db e room good h.
      let (low, high, _) = h id row e in write-InRange id _ db (ground arith, ground arith, good) h;
  claimed = λ id target row db e h. write-InRange id _ db (h id row e) h;
  recorded = λ operations db h. h;
}

abbrev pub no_rows_yet : TicketsDb
no_rows_yet = record { tickets = []; operations = [] }

-- From tables without rows, whatever is called and whatever goes wrong, every ticket's version is at
-- least 1 and at most 2 ^ 63 - 1, so that it never wraps round, and its price is positive.
pub run-IsInRange :
    (h : History) (id : ℕ) (row : TicketRow)
    → lookup id (run h no_rows_yet).tickets ≡ some row
    → IsInRange row
unfolding lookup
run-IsInRange h =
    run-Keeps InRange InRange-Preserved h no_rows_yet (λ id row e. absurd (none-ne-some row e))

-- The second row is a later one of the same ticket.
abbrev pub IsLaterRow : TicketRow → TicketRow → Type 0
IsLaterRow row row' =
    (row'.user_id ≡ row.user_id) × (row.aggregate_version ≤ row'.aggregate_version)

-- The ticket is there, with a later row.
abbrev pub Grown : ℕ → TicketRow → TicketsDb → Type 0
Grown id row db = (row' : TicketRow) × (lookup id db.tickets ≡ some row') × IsLaterRow row row'

module _ (ticket : ℕ) (first : TicketRow) where
  -- A row is written over one that it follows, or where there is none.
  write-Grown :
      (id : ℕ) (row : TicketRow) (db : TicketsDb)
      → ((old : TicketRow) → lookup id db.tickets ≡ some old → IsLaterRow old row)
      → Grown ticket first db
      → Grown ticket first (record db { tickets = write id row db.tickets })
  write-Grown id row db follows (now, there, (same, later)) = elim (Bool-cases (ticket == id)) [
    | inr other ↦ (now, ground (arith, lookup-write ticket id row db.tickets), (same, later))
    | inl one ↦
        let (same', later') = follows now (ground (arith, there)) in
        (row, ground (arith, lookup-write ticket id row db.tickets), (same' ∙ same, ground arith))
  ]

  Grown-Preserved : Preserved (Grown ticket first)
  Grown-Preserved = record {
    inserted = λ id input db good absent h.
        write-Grown id _ db (λ old e. absurd (false≢true (sym absent ∙ ap is_some e))) h;
    edited = λ id input row db e room good h.
        write-Grown id _ db
          (λ old e'.
            let was : row ≡ old = some-injective row old (sym e ∙ e') in
            subst (λ x. IsLaterRow x (edited_row input row)) was (refl, ground arith))
          h;
    claimed = λ id target row db e h.
        write-Grown id _ db
          (λ old e'.
            let was : row ≡ old = some-injective row old (sym e ∙ e') in
            subst (λ x. IsLaterRow x (record row { reserved_by_order_id = target })) was
              (refl, ground arith))
          h;
    recorded = λ operations db h. h;
  }

-- Whatever is called and whatever goes wrong, a ticket that is there stays there, keeps its owner,
-- and its version never falls.
pub run-IsLaterRow :
    (h : History) (db : TicketsDb) (id : ℕ) (row : TicketRow)
    → lookup id db.tickets ≡ some row
    → (row' : TicketRow) × (lookup id (run h db).tickets ≡ some row') × IsLaterRow row row'
run-IsLaterRow h db id row e =
    run-Keeps (Grown id row) (Grown-Preserved id row) h db (row, e, (refl, ground arith))
