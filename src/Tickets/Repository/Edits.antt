-- ===== src/Tickets/Repository/Edits.antt =====
-- Edits under an idempotency key: each is made once, and a replay answers what the first answered.
use polyglot_ticketing_v.Base.{
  ℕ, ◌≡◌, true, false, not, Option, none, some, [], ◌∷◌, ◌++◌, ◌==◌, if◌then◌else◌, Bool-cases,
  Option-cases, inl, inr, is_some, text_eq, Result, ok, err,
}
use polyglot_ticketing_v.Base.Table.{lookup, write}
use polyglot_ticketing_v.Base.Db.{Session, statement, query, transaction, finish, perform}
use polyglot_ticketing_v.Base.Db.Retry.{calm}
use polyglot_ticketing_v.Tickets.Model.{
  Error, forbidden, reserved, Ticket, UpdateInput, TicketRow, OperationRow, TicketsDb,
}
use polyglot_ticketing_v.Tickets.Repository.{
  price_ok, edit_row, edit_where, edited_row, scan_edited, update_with_idempotency, find_operation,
  scan_operation, operation_row, insert_operation, max_version,
}

-- The tables with the edit and its snapshot.
abbrev pub with_edit : ℕ → UpdateInput → TicketRow → TicketsDb → TicketsDb
with_edit id input row db = record {
  tickets = write id (edited_row input row) db.tickets;
  operations = db.operations ++ operation_row id input (scan_edited id (edited_row input row)) ∷ [];
}

-- A calm edit answers by the ticket's row and the operations stored.
module _ (id : ℕ) (input : UpdateInput) (row : TicketRow) (db : TicketsDb)
    (found : lookup id db.tickets ≡ some row) where
  -- If nothing goes wrong, an edit by someone who does not own the ticket is forbidden and changes nothing.
  update-stranger :
      text_eq row.user_id input.user_id ≡ false
      → update_with_idempotency id input (calm db) ≡ (err forbidden, calm db)
  unfolding update_with_idempotency transaction statement query finish perform
  update-stranger stranger = rw found (rw stranger)

  module _ (owned : text_eq row.user_id input.user_id ≡ true) where
    -- The owner's edit of a ticket that an order holds is refused and changes nothing, also where
    -- the same edit was made before.
    update-reserved :
        is_some row.reserved_by_order_id ≡ true
        → update_with_idempotency id input (calm db) ≡ (err reserved, calm db)
    unfolding update_with_idempotency transaction statement query finish perform
    update-reserved held = rw found (rw (owned, held))

    module _ (free : is_some row.reserved_by_order_id ≡ false) where
      -- A key that was used before answers the snapshot stored under it and changes nothing.
      pub update-replay :
          (op : OperationRow)
          → find_operation id input db.operations ≡ some op
          → update_with_idempotency id input (calm db) ≡ (ok (scan_operation op), calm db)
      unfolding update_with_idempotency transaction statement query finish perform
      update-replay op stored = rw found (rw (owned, free) (rw stored))

      -- A new key makes the edit, one version on, and stores its snapshot.
      pub update-new :
          find_operation id input db.operations ≡ none
          → price_ok input.price ≡ true
          → row.aggregate_version == max_version ≡ false
          → update_with_idempotency id input (calm db)
            ≡ (ok (scan_edited id (edited_row input row)), calm (with_edit id input row db))
      unfolding update_with_idempotency transaction statement query finish perform edit_where
          edit_row insert_operation
      update-new new good room =
          rw found
            (rw (owned, free) (rw new (rw (found, owned) (rw (room, good) (rw (new, good))))))

-- What an owner's edit of a free ticket comes to by the snapshot under its key: one found is
-- answered, and where there is none the edit is made and its snapshot stored.
abbrev pub by_key :
    ℕ
    → UpdateInput
    → TicketRow
    → TicketsDb
    → Option OperationRow
    → Result Error Ticket × Session TicketsDb
by_key id input row db (some op) = (ok (scan_operation op), calm db)
by_key id input row db none =
    (ok (scan_edited id (edited_row input row)), calm (with_edit id input row db))

-- What an edit comes to by the ticket's row.
abbrev pub edit_result :
    ℕ → UpdateInput → TicketRow → TicketsDb → Result Error Ticket × Session TicketsDb
edit_result id input row db =
    if not (text_eq row.user_id input.user_id)
    then (err forbidden, calm db)
    else if is_some row.reserved_by_order_id
    then (err reserved, calm db)
    else by_key id input row db (find_operation id input db.operations)

-- If nothing goes wrong, the price is positive and the version is not the largest BIGINT, an edit of
-- a ticket that is there answers and does this: a stranger is told it is forbidden, and then the
-- owner of a claimed ticket that it is reserved, and neither changes anything; a key that was used
-- before answers its stored snapshot and changes nothing; a new key writes the new title and price,
-- one version on, and stores their snapshot under the key.
pub update_with_idempotency_lem :
    (id : ℕ) (input : UpdateInput) (row : TicketRow) (db : TicketsDb)
    → lookup id db.tickets ≡ some row
    → price_ok input.price ≡ true
    → row.aggregate_version == max_version ≡ false
    → update_with_idempotency id input (calm db) ≡ edit_result id input row db
update_with_idempotency_lem id input row db found good room =
    elim (Bool-cases (text_eq row.user_id input.user_id)) [
      | inr stranger ↦ rw stranger (update-stranger id input row db found stranger)
      | inl owned ↦ elim (Bool-cases (is_some row.reserved_by_order_id)) [
        | inl held ↦ rw (owned, held) (update-reserved id input row db found owned held)
        | inr free ↦ elim (Option-cases (find_operation id input db.operations)) [
          | inl new ↦
              rw (owned, free) (rw new (update-new id input row db found owned free new good room))
          | inr (op, stored) ↦
              rw (owned, free)
                (rw stored (update-replay id input row db found owned free op stored))
        ]
      ]
    ]
