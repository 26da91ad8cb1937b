-- ===== src/Tickets/History.antt =====
-- Histories of the Tickets tables: the writing methods of `Repository`, in any order, each with
-- whatever goes wrong in it.
pub mod Versions
use polyglot_ticketing_v.Base.{ℕ, ◌≡◌, ◌≢◌, some, List, [], ◌∷◌}
use polyglot_ticketing_v.Base.Table.{lookup}
use polyglot_ticketing_v.Base.Db.{Fault, Session}
use polyglot_ticketing_v.Tickets.Model.{CreateInput, UpdateInput, TicketRow, TicketsDb}
use polyglot_ticketing_v.Tickets.Repository.{
  create, update, update_with_idempotency, reserve_for_order, release_order_reservation,
}
use polyglot_ticketing_v.Tickets.Repository.Frozen.{
  create-At, update-At, update_with_idempotency-At, reserve_for_order-At,
  release_order_reservation-At,
}

-- The writing methods of `Repository`, with uuid.NewString() where it is used.
pub data Call : Type 0 where
  insert : ℕ → CreateInput → Call
  edit : ℕ → UpdateInput → Call
  edit_once : ℕ → UpdateInput → Call
  reserve : ℕ → ℕ → Call
  release : ℕ → ℕ → Call

-- The tables that a call leaves.
unfoldable pub run_call : Call → Session TicketsDb → TicketsDb
run_call (insert random_id input) s = (create random_id input s).1.tables
run_call (edit id input) s = (update id input s).1.tables
run_call (edit_once id input) s = (update_with_idempotency id input s).1.tables
run_call (reserve ticket order) s = (reserve_for_order ticket order s).1.tables
run_call (release ticket order) s = (release_order_reservation ticket order s).1.tables

abbrev pub History : Type 0
History = List (Call × List Fault)

unfoldable pub run : History → TicketsDb → TicketsDb
run [] db = db
run ((call, faults) ∷ rest) db = run rest (run_call call (record { tables = db; faults = faults }))

-- The call is no release of the ticket by the order.
abbrev pub IsOther : ℕ → ℕ → Call → Type 0
IsOther ticket order (release id holder) = id ≡ ticket → holder ≢ order
IsOther ticket order _ = Unit

-- No call of the history is a release of the ticket by the order.
abbrev pub Unreleased : ℕ → ℕ → History → Type 0
Unreleased ticket order [] = Unit
Unreleased ticket order ((call, _) ∷ rest) =
    IsOther ticket order call × Unreleased ticket order rest

module _ (ticket order : ℕ) (row : TicketRow) (held : row.reserved_by_order_id ≡ some order) where
  run_call-frozen :
      (call : Call) (s : Session TicketsDb)
      → IsOther ticket order call
      → lookup ticket s.tables.tickets ≡ some row
      → lookup ticket (run_call call s).tickets ≡ some row
  unfolding run_call
  run_call-frozen (insert random_id input) s other =
      (create-At ticket row order held random_id input).holds s
  run_call-frozen (edit id input) s other = (update-At ticket row order held id input).holds s
  run_call-frozen (edit_once id input) s other =
      (update_with_idempotency-At ticket row order held id input).holds s
  run_call-frozen (reserve id holder) s other =
      (reserve_for_order-At ticket row order held id holder).holds s
  run_call-frozen (release id holder) s other =
      (release_order_reservation-At ticket row order held id holder other).holds s

  -- A ticket that an order has claimed stays as it is, its title, price, version and claim, through
  -- any history in which that order does not release it: no edit goes through and no other order
  -- takes the claim.
  pub run_frozen :
      (h : History) (db : TicketsDb)
      → Unreleased ticket order h
      → lookup ticket db.tickets ≡ some row
      → lookup ticket (run h db).tickets ≡ some row
  unfolding run
  run_frozen [] db u at = at
  run_frozen ((call, faults) ∷ rest) db u at =
      let s : Session TicketsDb = record { tables = db; faults = faults } in
      run_frozen rest (run_call call s) u.1 (run_call-frozen call s u.0 at)
