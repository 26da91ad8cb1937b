-- ===== src/Tickets/Repository/Snapshots.antt =====
-- Edits and claims keep what is recorded of the versions, and what an edit answers is
-- recorded.
use mathlib.Core.Option.{some-injective, none-ne-some}
use mathlib.Core.Path.{subst}
use polyglot_ticketing_v.Base.{
  ℕ, ◌≡◌, refl, sym, ◌∙◌, Bool, Option, none, some, arith, Bool-cases, ◌==◌, is_some, inl, inr,
}
use polyglot_ticketing_v.Base.Table.{lookup, write}
use polyglot_ticketing_v.Base.Db.{no_rows}
use polyglot_ticketing_v.Base.Db.Laws.{Ensures}
use polyglot_ticketing_v.Base.Db.Answers.{
  Good, Answers, Gives, answers_pure, answers_bind, answers_statement, answers_query,
  answers_transaction,
}
use polyglot_ticketing_v.Tickets.Model.{
  Error, not_found, database, Ticket, UpdateInput, TicketRow, OperationRow, TicketsDb,
}
use polyglot_ticketing_v.Tickets.Repository.{
  price_ok, edit_row, edit_where, edited_row, scan_edited, scan_operation, operation_row,
  find_operation, insert_operation, apply_edit, guard_error, pass_guards, edit_once,
  update_with_idempotency, max_version,
}
use polyglot_ticketing_v.Tickets.Repository.Rows.{KeptByClaims}
use polyglot_ticketing_v.Tickets.Repository.Recorded.{
  TicketRecorded, write-Recorded, Draft, Succeeds, find_operation-AllRecorded, From, write-From,
  store-From,
}
use polyglot_ticketing_v.Tickets.Repository.Originals.{require-Answers}

module _ (origin : ℕ → Draft) (start : TicketsDb) where
  abbrev I : TicketsDb → Type 0
  I db = From origin start db

  edit_where-Gives :
      (test : TicketRow → Bool) (id : ℕ) (input : UpdateInput) (found : Option TicketRow)
      (db : TicketsDb)
      → lookup id db.tickets ≡ found
      → I db
      → Gives I
          (λ answer db. (t : Ticket) → answer ≡ some t → TicketRecorded t db)
          (edit_where test id input found db)
  unfolding edit_where edit_row
  edit_where-Gives test id input none db e h = (h, λ t n. absurd (none-ne-some t n))
  edit_where-Gives test id input (some row) db e h = elim (Bool-cases (test row)) [
    | inr fail ↦ rw fail (h, λ t n. absurd (none-ne-some t n))
    | inl pass ↦ elim (Bool-cases (row.aggregate_version == max_version)) [
      | inl top ↦ rw (pass, top) tt
      | inr room ↦ elim (Bool-cases (price_ok input.price)) [
        | inr bad ↦ rw (pass, room, bad) tt
        | inl good ↦
            let next : TicketRow = edited_row input row in
            rw (pass, room, good)
              (
                write-From origin start id next db
                    (λ old e'.
                      subst (λ x. Succeeds x next) (some-injective row old (sym e ∙ e'))
                        (ground arith, λ same. absurd (ground arith)))
                    (
                      ground (arith, h.recorded.original id row e),
                      λ same. absurd (ground (arith, h.recorded.original id row e)),
                    )
                    h,
                λ t n.
                    let was : scan_edited id next ≡ t = some-injective (scan_edited id next) t n in
                    subst (λ x. TicketRecorded x (record db { tickets = write id next db.tickets }))
                      was (write-Recorded id next db),
              )
      ]
    ]
  ]

  insert_operation-Gives :
      (id : ℕ) (input : UpdateInput) (updated : Ticket) (db : TicketsDb)
      → I db × TicketRecorded updated db
      → Gives I (λ _. TicketRecorded updated) (insert_operation id input updated db)
  unfolding insert_operation
  insert_operation-Gives id input updated db (h, now) =
      elim (Bool-cases (is_some (find_operation id input db.operations))) [
        | inl known ↦ rw known tt
        | inr new ↦ elim (Bool-cases (price_ok updated.price)) [
          | inr bad ↦ rw (new, bad) tt
          | inl good ↦
              rw (new, good)
                (store-From origin start (operation_row id input updated) db now h, now)
        ]
      ]

  -- An edit, or the replay of one.
  apply_edit-Answers :
      (id : ℕ) (input : UpdateInput) (existing : Option OperationRow)
      → Ensures
          (λ db.
            I db
            × ((op : OperationRow) → existing ≡ some op → TicketRecorded (scan_operation op) db))
          (apply_edit id input existing)
          (Good I TicketRecorded)
  unfolding apply_edit
  apply_edit-Answers id input (some existing) = record { holds = λ s h. (h.0, h.1 existing refl) }
  apply_edit-Answers id input none =
      answers_bind I (λ answer db. (t : Ticket) → answer ≡ some t → TicketRecorded t db)
        (answers_statement I _ database _ (λ db h. h.0)
          (λ db h. edit_where-Gives _ id input (lookup id db.tickets) db refl h.0))
        λ found.
          answers_bind I TicketRecorded
            (require-Answers origin start TicketRecorded (database no_rows) found)
            λ updated.
              answers_bind I (λ _. TicketRecorded updated)
                (answers_statement I (λ _. TicketRecorded updated) database
                  (insert_operation id input updated) (λ db h. h.0)
                  (insert_operation-Gives id input updated))
                (λ _. answers_pure I TicketRecorded updated)

  pass_guards-Answers : (e : Option Error) → Answers I (pass_guards e) (λ _ _. Unit {0})
  unfolding pass_guards
  pass_guards-Answers none = record { holds = λ s h. (h, tt) }
  pass_guards-Answers (some e) = record { holds = λ s h. h }

  edit_once-Answers : (id : ℕ) (input : UpdateInput) → Answers I (edit_once id input) TicketRecorded
  unfolding edit_once
  edit_once-Answers id input =
      answers_bind I (λ _ _. Unit {0})
        (answers_query I (λ _ _. Unit {0}) database _ (λ db h. h) (λ db h. tt))
        λ row.
          answers_bind I (λ _ _. Unit {0}) {P = λ db. I db × Unit {0}}
            (record {
              holds = λ s h.
                  (require-Answers origin start (λ _ _. Unit {0}) not_found row).holds s
                    (h.0, λ _ _. tt);
            })
            λ found.
              answers_bind I (λ _ _. Unit {0}) {P = λ db. I db × Unit {0}}
                (record {
                  holds =
                      λ s h. (pass_guards-Answers (guard_error input.user_id found)).holds s h.0;
                })
                λ _.
                  answers_bind I
                    (λ existing db.
                      (op : OperationRow)
                      → existing ≡ some op
                      → TicketRecorded (scan_operation op) db)
                    {P = λ db. I db × Unit {0}}
                    (answers_query I _ database _ (λ db h. h.0)
                      (λ db h op.
                        find_operation-AllRecorded id input db.operations op db
                          h.0.recorded.snapshots))
                    (apply_edit-Answers id input)

  -- What an edit under an idempotency key answers is recorded.
  pub update_with_idempotency-Answers :
      (id : ℕ) (input : UpdateInput) → Answers I (update_with_idempotency id input) TicketRecorded
  unfolding update_with_idempotency
  update_with_idempotency-Answers id input =
      answers_transaction I TicketRecorded database (edit_once-Answers id input)

  -- A change of reservations.
  pub From-KeptByClaims : KeptByClaims I
  From-KeptByClaims id target row db e h =
      let next : TicketRow = record row { reserved_by_order_id = target } in
      write-From origin start id next db
        (λ old e'.
          subst (λ x. Succeeds x next) (some-injective row old (sym e ∙ e'))
            (ground arith, λ _. (refl, refl)))
        (h.recorded.original id row e) h
