-- ===== src/Payments/History.antt =====
-- Histories of the Payments tables: the writing methods of the two repository interfaces, in any
-- order, each with whatever goes wrong in it.
use polyglot_ticketing_v.Base.{ℕ, ◌≡◌, some, List, [], ◌∷◌}
use polyglot_ticketing_v.Base.Table.{lookup}
use polyglot_ticketing_v.Base.Db.{Fault, Session}
use polyglot_ticketing_v.Payments.Model.{Status, Order, CreateInput, PaymentRow, PaymentsDb}
use polyglot_ticketing_v.Payments.Repository.{create, claim_next_pending, mark_resolved}
use polyglot_ticketing_v.Payments.Repository.Follows.{
  Follows, Advances, Advances-refl, Advances-trans,
}
use polyglot_ticketing_v.Payments.Repository.Progress.{
  create-Advances, claim_next_pending-Advances, mark_resolved-Advances,
}

-- The methods, with NOW() and gen_random_uuid() where they are used.
pub data Call : Type 0 where
  open_payment : ℕ → CreateInput → Order → Call
  claim : ℕ → Status → ℕ → Call
  settle : ℕ → Status → Call

-- The tables that a call leaves.
unfoldable pub run_call : Call → Session PaymentsDb → PaymentsDb
run_call (open_payment random_id input order) s = (create random_id input order s).1.tables
run_call (claim now outcome lease_until) s = (claim_next_pending now outcome lease_until s).1.tables
run_call (settle id outcome) s = (mark_resolved id outcome s).1.tables

abbrev pub History : Type 0
History = List (Call × List Fault)

unfoldable pub run : History → PaymentsDb → PaymentsDb
run [] db = db
run ((call, faults) ∷ rest) db = run rest (run_call call (record { tables = db; faults = faults }))

run_call-Advances : (call : Call) (s : Session PaymentsDb) → Advances s.tables (run_call call s)
unfolding run_call
run_call-Advances (open_payment random_id input order) s =
    (create-Advances s.tables random_id input order).holds s (Advances-refl s.tables)
run_call-Advances (claim now outcome lease_until) s =
    (claim_next_pending-Advances s.tables now outcome lease_until).holds s (Advances-refl s.tables)
run_call-Advances (settle id outcome) s =
    (mark_resolved-Advances s.tables id outcome).holds s (Advances-refl s.tables)

run-Advances : (h : History) (db : PaymentsDb) → Advances db (run h db)
unfolding run
run-Advances [] db = Advances-refl db
run-Advances ((call, faults) ∷ rest) db =
    let s : Session PaymentsDb = record { tables = db; faults = faults } in
    Advances-trans db (run_call call s) (run rest (run_call call s)) (run_call-Advances call s)
      (run-Advances rest (run_call call s))

-- Whatever is called and whatever goes wrong, a payment that is there stays there and with its
-- order, the outcome once chosen for it stays the same, and its status either stays or goes from
-- Pending to its chosen outcome.
pub run-Follows :
    (h : History) (db : PaymentsDb) (id : ℕ) (row : PaymentRow)
    → lookup id db.payments ≡ some row
    → (row' : PaymentRow) × (lookup id (run h db).payments ≡ some row') × Follows row row'
run-Follows h db = (run-Advances h db).follows
