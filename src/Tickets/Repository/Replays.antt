-- ===== src/Tickets/Repository/Replays.antt =====
-- `UpdateWithIdempotency` may be tried again after any failure: one edit is made in all.
use mathlib.Core.Bool.{false≢true}
use polyglot_ticketing_v.Base.{
  ℕ, ◌≡◌, ◌⊎◌, is_ok, refl, sym, ap, ◌∙◌, true, false, Option, none, some, List, [], ◌∷◌, ◌++◌,
  arith, ◌==◌, Bool-cases, Option-cases, is_some, inl, inr, text_eq, text_eq_refl, Result, ok, err,
}
use polyglot_ticketing_v.Base.Table.{lookup, lookup-write}
use polyglot_ticketing_v.Base.Db.{check_violation, no_rows, Session, statement, query, perform}
use polyglot_ticketing_v.Base.Db.Retry.{calm, RetrySafe}
use polyglot_ticketing_v.Base.Db.Steady.{
  Steady, Steady-pure, Steady-raise, Steady-bind, Steady-statement, Steady-query,
  transaction-RetrySafe,
}
use polyglot_ticketing_v.Tickets.Model.{
  Error, forbidden, not_found, reserved, database, Ticket, UpdateInput, TicketRow, OperationRow,
  TicketsDb,
}
use polyglot_ticketing_v.Tickets.Repository.{
  price_ok, out_of_range, require, edit_row, edit_where, edited_row, scan_edited, apply_edit,
  guard_error, pass_guards, edit_once, update_with_idempotency, is_operation, find_operation,
  operation_row, insert_operation, max_version,
}
use polyglot_ticketing_v.Tickets.Repository.Edits.{update-replay, update-new, with_edit}

-- A snapshot stored behind the others is found under its key, where none was.
find_operation-append :
    (id : ℕ) (input : UpdateInput) (op : OperationRow) (ops : List OperationRow)
    → find_operation id input ops ≡ none
    → is_operation id input op ≡ true
    → find_operation id input (ops ++ op ∷ []) ≡ some op
unfolding find_operation
find_operation-append id input op [] new fits = rw fits
find_operation-append id input op (o ∷ ops) new fits = elim (Bool-cases (is_operation id input o)) [
  | inl old ↦ ground arith
  | inr other ↦ ground (arith, other, find_operation-append id input op ops)
]

module _ {A : Type 0} (e : Error) where
  Steady-require : (o : Option A) → Steady (require e o)
  unfolding require
  Steady-require none = Steady-raise e
  Steady-require (some a) = Steady-pure a

Steady-guards : (e : Option Error) → Steady (pass_guards e)
unfolding pass_guards
Steady-guards none = Steady-pure tt
Steady-guards (some e) = Steady-raise e

Steady-apply :
    (id : ℕ) (input : UpdateInput) (existing : Option OperationRow)
    → Steady (apply_edit id input existing)
unfolding apply_edit
Steady-apply id input (some existing) = Steady-pure _
Steady-apply id input none = Steady-bind (Steady-statement database _) λ row.
    Steady-bind (Steady-require (database no_rows) row) λ updated.
      Steady-bind (Steady-statement database (insert_operation id input updated))
        (λ _. Steady-pure updated)

Steady-edit : (id : ℕ) (input : UpdateInput) → Steady (edit_once id input)
unfolding edit_once
Steady-edit id input = Steady-bind (Steady-query database _) λ row.
    Steady-bind (Steady-require not_found row) λ found.
      Steady-bind (Steady-guards (guard_error input.user_id found))
        λ _. Steady-bind (Steady-query database _) (Steady-apply id input)

err-ne-ok :
    {e : Error} {a : Ticket} {s u : Session TicketsDb}
    → ◌≡◌ {A = Result Error Ticket × Session TicketsDb} (err e, s) (ok a, u)
    → ⊥
err-ne-ok h = false≢true (ap (λ (x : Result Error Ticket × Session TicketsDb). is_ok x.0) h)

-- How a calm edit goes.
abbrev Went : ℕ → UpdateInput → TicketsDb → TicketsDb → Type 0
Went id input t u =
    (u ≡ t)
    ⊎ ((row : TicketRow) × (lookup id t.tickets ≡ some row)
        × (text_eq row.user_id input.user_id ≡ true)
        × (is_some row.reserved_by_order_id ≡ false)
        × (find_operation id input t.operations ≡ none)
        × (price_ok input.price ≡ true)
        × (row.aggregate_version == max_version ≡ false)
        × (u ≡ with_edit id input row t))

module _ (id : ℕ) (input : UpdateInput) (t u : TicketsDb) (a : Ticket) where
  apply_edit-Went :
      (row : TicketRow)
      → lookup id t.tickets ≡ some row
      → text_eq row.user_id input.user_id ≡ true
      → is_some row.reserved_by_order_id ≡ false
      → (existing : Option OperationRow) → find_operation id input t.operations ≡ existing
      → apply_edit id input existing (calm t) ≡ (ok a, calm u)
      → Went id input t u
  unfolding apply_edit statement perform edit_where edit_row insert_operation
  apply_edit-Went row found owned free (some op) stored h =
      inl (sym (ap (λ (x : Result Error Ticket × Session TicketsDb). x.1.tables) h))
  apply_edit-Went row found owned free none new h =
      elim (Bool-cases (row.aggregate_version == max_version)) [
        | inl top ↦
            let e : apply_edit id input none (calm t) ≡ (err (database out_of_range), calm t) =
              rw found (rw (owned, top)) in
            absurd (err-ne-ok (sym e ∙ h))
        | inr room ↦ elim (Bool-cases (price_ok input.price)) [
          | inr bad ↦
              let e : apply_edit id input none (calm t) ≡ (err (database check_violation), calm t) =
                rw found (rw (owned, room, bad)) in
              absurd (err-ne-ok (sym e ∙ h))
          | inl good ↦
              let e : apply_edit id input none (calm t)
                  ≡ (ok (scan_edited id (edited_row input row)), calm (with_edit id input row t)) =
                rw found (rw (owned, room, good) (rw (new, good))) in
              inr (
                row,
                found,
                owned,
                free,
                new,
                good,
                room,
                sym (ap (λ (x : Result Error Ticket × Session TicketsDb). x.1.tables) (sym e ∙ h)),
              )
        ]
      ]

  edit_once-Went : edit_once id input (calm t) ≡ (ok a, calm u) → Went id input t u
  unfolding edit_once statement query perform
  edit_once-Went h = elim (Option-cases (lookup id t.tickets)) [
    | inl absent ↦
        let e : edit_once id input (calm t) ≡ (err not_found, calm t) = rw absent in
        absurd (err-ne-ok (sym e ∙ h))
    | inr (row, found) ↦ elim (Bool-cases (text_eq row.user_id input.user_id)) [
      | inr stranger ↦
          let e : edit_once id input (calm t) ≡ (err forbidden, calm t) = rw found (rw stranger) in
          absurd (err-ne-ok (sym e ∙ h))
      | inl owned ↦ elim (Bool-cases (is_some row.reserved_by_order_id)) [
        | inl held ↦
            let e : edit_once id input (calm t) ≡ (err reserved, calm t) =
              rw found (rw (owned, held)) in
            absurd (err-ne-ok (sym e ∙ h))
        | inr free ↦
            let e : edit_once id input (calm t)
                ≡ apply_edit id input (find_operation id input t.operations) (calm t) =
              rw found (rw (owned, free)) in
            apply_edit-Went row found owned free (find_operation id input t.operations) refl
              (sym e ∙ h)
      ]
    ]
  ]

  -- A transaction that was committed is not made again.
  edit_again :
      edit_once id input (calm t) ≡ (ok a, calm u)
      → update_with_idempotency id input (calm u) ≡ update_with_idempotency id input (calm t)
  edit_again h = elim (edit_once-Went h) [
    | inl same ↦ rw same
    | inr (row, found, owned, free, new, good, room, e) ↦
        let op : OperationRow = operation_row id input (scan_edited id (edited_row input row)) in
        let u' : TicketsDb = with_edit id input row t in
        let at : lookup id u'.tickets ≡ some (edited_row input row) =
          ground (arith, lookup-write id id (edited_row input row) t.tickets) in
        let fits : is_operation id input op ≡ true =
          ground (arith, text_eq_refl input.idempotency_key) in
        let stored : find_operation id input u'.operations ≡ some op =
          find_operation-append id input op t.operations new fits in
        rw e (
          update-replay id input (edited_row input row) u' at owned free op stored
          ∙ sym (update-new id input row t found owned free new good room))
  ]

-- Edits that failed, whatever they did, may be tried again: all attempts together make the edit
-- once, and the one that goes well answers its result.
pub update_with_idempotency-RetrySafe :
    (id : ℕ) (input : UpdateInput) → RetrySafe (update_with_idempotency id input)
unfolding update_with_idempotency
update_with_idempotency-RetrySafe id input =
    transaction-RetrySafe database (edit_once id input) (Steady-edit id input)
      λ t u a h. edit_again id input t u a h
