-- ===== src/Tickets/Repository/Edited.antt =====
-- What an edit that goes well has done: it has answered a stored snapshot and changed nothing, or it has
-- made the edit.
use mathlib.Core.Option.{some-injective, none-ne-some}
use mathlib.Core.Path.{subst}
use polyglot_ticketing_v.Base.{
  ℕ, ◌≡◌, ◌⊎◌, refl, sym, ap, ◌∙◌, Bool, true, Option, none, some, List, [], ◌∷◌, arith, Bool-cases,
  ◌==◌, is_some, inl, inr, text_eq, Result, ok, err,
}
use polyglot_ticketing_v.Base.Table.{lookup, lookup-write}
use polyglot_ticketing_v.Base.Db.{no_rows}
use polyglot_ticketing_v.Base.Db.Laws.{
  Ensures, Then, Meets, Ends, ensures_bind, ensures_statement, ensures_query, ensures_transaction,
}
use polyglot_ticketing_v.Tickets.Model.{
  Error, not_found, database, Ticket, UpdateInput, TicketRow, OperationRow, TicketsDb,
}
use polyglot_ticketing_v.Tickets.Repository.{
  price_ok, require, edit_row, edit_where, edited_row, scan_edited, scan_operation, is_operation,
  find_operation, insert_operation, apply_edit, guard_error, pass_guards, edit_once,
  update_with_idempotency, max_version,
}

-- A snapshot that is found is one of the ticket.
pub find_operation-ticket_id :
    (id : ℕ) (input : UpdateInput) (ops : List OperationRow) (op : OperationRow)
    → find_operation id input ops ≡ some op
    → op.ticket_id ≡ id
unfolding find_operation
find_operation-ticket_id id input [] op e = absurd (none-ne-some op e)
find_operation-ticket_id id input (o ∷ ops) op e = elim (Bool-cases (is_operation id input o)) [
  | inl hit ↦
      let was : o ≡ op = ground (arith, e, hit) in
      ap (λ (x : OperationRow). x.ticket_id) (sym was) ∙ ground (arith, hit)
  | inr miss ↦ find_operation-ticket_id id input ops op (ground (arith, e, miss))
]

module _ (id : ℕ) (input : UpdateInput) (before : TicketsDb) where
  -- The answer is the stored snapshot of the edit.
  abbrev pub IsReplay : Ticket → TicketsDb → Type 0
  IsReplay t db =
      (db ≡ before)
      × ((op : OperationRow) × (find_operation id input before.operations ≡ some op)
          × (t ≡ scan_operation op))

  -- The ticket's row has been edited, and the answer is what it was made.
  abbrev pub IsMade : Ticket → TicketsDb → Type 0
  IsMade t db =
      (row : TicketRow) × (lookup id before.tickets ≡ some row)
      × (lookup id db.tickets ≡ some (edited_row input row))
      × (t ≡ scan_edited id (edited_row input row))
      × (price_ok input.price ≡ true)

  abbrev pub Edited : Ticket → TicketsDb → Type 0
  Edited t db = IsReplay t db ⊎ IsMade t db

  -- An answer of the edit is one of these; an error says nothing.
  abbrev pub Answer : Result Error Ticket → TicketsDb → Type 0
  Answer (ok t) db = Edited t db
  Answer (err _) db = Unit

  abbrev Found : Option Ticket → TicketsDb → Type 0
  Found found db = (t : Ticket) → found ≡ some t → IsMade t db

  edit_where-Found :
      (test : TicketRow → Bool) (found : Option TicketRow)
      → lookup id before.tickets ≡ found
      → Meets database
          (Then {B = Ticket} Found Answer)
          before
          (edit_where test id input found before)
  unfolding edit_where edit_row
  edit_where-Found test none e = (λ t n. absurd (none-ne-some t n), λ _. tt, λ _. tt)
  edit_where-Found test (some row) e = elim (Bool-cases (test row)) [
    | inr fail ↦ rw fail (λ t n. absurd (none-ne-some t n), λ _. tt, λ _. tt)
    | inl pass ↦ elim (Bool-cases (row.aggregate_version == max_version)) [
      | inl top ↦ rw (pass, top) (λ _. tt)
      | inr room ↦ elim (Bool-cases (price_ok input.price)) [
        | inr bad ↦ rw (pass, room, bad) (λ _. tt)
        | inl good ↦
            let next : TicketRow = edited_row input row in
            rw (pass, room, good)
              (
                λ t n. (
                  row,
                  e,
                  ground (arith, lookup-write id id next before.tickets),
                  sym (some-injective (scan_edited id next) t n),
                  good,
                ),
                λ _. tt,
                λ _. tt,
              )
      ]
    ]
  ]

  insert_operation-Made :
      (updated : Ticket) (db : TicketsDb)
      → IsMade updated db
      → Meets database
          (Then {B = Ticket} (λ _. IsMade updated) Answer)
          db
          (insert_operation id input updated db)
  unfolding insert_operation
  insert_operation-Made updated db h =
      elim (Bool-cases (is_some (find_operation id input db.operations))) [
        | inl known ↦ rw known (λ _. tt)
        | inr new ↦ elim (Bool-cases (price_ok updated.price)) [
          | inr bad ↦ rw (new, bad) (λ _. tt)
          | inl good ↦ rw (new, good) (h, λ _. tt, λ _. tt)
        ]
      ]

  require-Made :
      (found : Option Ticket)
      → Ensures (Found found) (require (database no_rows) found) (Then {B = Ticket} IsMade Answer)
  unfolding require
  require-Made none = record { holds = λ s h. tt }
  require-Made (some t) = record { holds = λ s h. h t refl }

  apply_edit-Answer :
      (existing : Option OperationRow)
      → Ensures
          (λ db. (db ≡ before) × (find_operation id input before.operations ≡ existing))
          (apply_edit id input existing)
          Answer
  unfolding apply_edit
  apply_edit-Answer (some op) = record { holds = λ s h. inl (h.0, (op, h.1, refl)) }
  apply_edit-Answer none =
      ensures_bind Found
        (ensures_statement database _ (λ db h.
          subst
            (λ u. Meets database (Then {B = Ticket} Found Answer) u (
              edit_where (λ row. text_eq row.user_id input.user_id) id input (lookup id u.tickets)
                u))
            (sym h.0)
            (edit_where-Found (λ row. text_eq row.user_id input.user_id) (lookup id before.tickets)
              refl)))
        λ found. ensures_bind IsMade (require-Made found) λ updated.
          ensures_bind (λ _. IsMade updated)
            (ensures_statement database (insert_operation id input updated)
              (insert_operation-Made updated))
            (λ _. record { holds = λ s h. inr h })

  pass_guards-Answer :
      (e : Option Error)
      → Ensures (λ db. db ≡ before) (pass_guards e) (Then {B = Ticket} (λ _ db. db ≡ before) Answer)
  unfolding pass_guards
  pass_guards-Answer none = record { holds = λ s h. h }
  pass_guards-Answer (some e) = record { holds = λ s h. tt }

  require_row-Answer :
      {A : Type 0} (row : Option A)
      → Ensures
          (λ db. db ≡ before)
          (require not_found row)
          (Then {B = Ticket} (λ _ db. db ≡ before) Answer)
  unfolding require
  require_row-Answer none = record { holds = λ s h. tt }
  require_row-Answer (some a) = record { holds = λ s h. h }

  edit_once-Answer : Ensures (λ db. db ≡ before) (edit_once id input) Answer
  unfolding edit_once
  edit_once-Answer =
      ensures_bind (λ _ db. db ≡ before) (ensures_query database _ (λ db h. h) (λ e db h. tt))
        λ row.
          ensures_bind (λ _ db. db ≡ before) (require_row-Answer row)
            λ found.
              ensures_bind (λ _ db. db ≡ before)
                (pass_guards-Answer (guard_error input.user_id found))
                λ _.
                  ensures_bind
                    (λ existing db.
                      (db ≡ before) × (find_operation id input before.operations ≡ existing))
                    (ensures_query database _
                      (λ db h.
                        (h, ap (λ (u : TicketsDb). find_operation id input u.operations) (sym h)))
                      (λ e db h. tt))
                    apply_edit-Answer

Ends-Answer :
    (id : ℕ) (input : UpdateInput) (before t : TicketsDb) (r : Result Error Ticket)
    → Answer id input before r t
    → Ends database (Answer id input before) before r t
Ends-Answer id input before t (ok a) h = (h, λ _. tt, λ _. tt)
Ends-Answer id input before t (err e) h = tt

-- Whatever goes wrong, an edit that answers a ticket has replayed it or made it.
pub update_with_idempotency-Answer :
    (id : ℕ) (input : UpdateInput) (before : TicketsDb)
    → Ensures (λ db. db ≡ before) (update_with_idempotency id input) (Answer id input before)
unfolding update_with_idempotency
update_with_idempotency-Answer id input before =
    ensures_transaction database
      (λ t e. record {
        holds = λ s same.
            Ends-Answer id input before _ _ ((edit_once-Answer id input before).holds s (same ∙ e));
      })
      (λ e db h. tt)
