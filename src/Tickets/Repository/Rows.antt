-- ===== src/Tickets/Repository/Rows.antt =====
-- What every operation of the repository keeps, of what its writes to the table keep.
use polyglot_ticketing_v.Base.{
  ℕ, ◌≡◌, refl, Bool, true, false, Option, none, some, List, Bool-cases, is_some, inl, inr, ◌==◌,
}
use polyglot_ticketing_v.Base.Table.{lookup, write}
use polyglot_ticketing_v.Base.Db.{no_rows}
use polyglot_ticketing_v.Base.Db.Keeps.{
  Keeps, Written, Keeps-pure, Keeps-pure_if, Keeps-raise, keeps_bind, Keeps-statement, Keeps-query,
  Keeps-transaction,
}
use polyglot_ticketing_v.Tickets.Model.{
  Error, not_found, reserved, database, Ticket, CreateInput, UpdateInput, TicketRow, OperationRow,
  TicketsDb,
}
use polyglot_ticketing_v.Tickets.Repository.{
  price_ok, id_or, created_row, insert_ticket, create, edit_row, edit_where, edited_row, update,
  apply_edit, guard_error, pass_guards, edit_once, update_with_idempotency, find_operation,
  insert_operation, set_reservation, free_or_own, own, reserve_for_order, release_order_reservation,
  max_version,
}
use polyglot_ticketing_v.Tickets.Repository.Frozen.{
  Keeps-require, update_rest-Keeps, affected_or-Keeps,
}

-- A property that a change of reservations keeps.
abbrev pub KeptByClaims : (TicketsDb → Type 0) → Type 0
KeptByClaims I =
    (id : ℕ) (target : Option ℕ) (row : TicketRow) (db : TicketsDb)
    → lookup id db.tickets ≡ some row
    → I db
    → I (record db { tickets = write id (record row { reserved_by_order_id = target }) db.tickets })

-- The writes to the tables, each where its statement makes it.
pub record Preserved (I : TicketsDb → Type 0) : Type 0 where
  pub inserted :
      (id : ℕ) (input : CreateInput) (db : TicketsDb)
      → price_ok input.price ≡ true
      → is_some (lookup id db.tickets) ≡ false
      → I db
      → I (record db { tickets = write id (created_row input) db.tickets })
  pub edited :
      (id : ℕ) (input : UpdateInput) (row : TicketRow) (db : TicketsDb)
      → lookup id db.tickets ≡ some row
      → (row.aggregate_version == max_version) ≡ false
      → price_ok input.price ≡ true
      → I db
      → I (record db { tickets = write id (edited_row input row) db.tickets })
  pub claimed : KeptByClaims I
  pub recorded :
      (operations : List OperationRow) (db : TicketsDb)
      → I db
      → I (record db { operations = operations })

module _ (I : TicketsDb → Type 0) (p : Preserved I) where
  insert_ticket-Written :
      (id : ℕ) (input : CreateInput) (db : TicketsDb) → I db → Written I (insert_ticket id input db)
  unfolding insert_ticket
  insert_ticket-Written id input db h = elim (Bool-cases (price_ok input.price)) [
    | inr bad ↦ rw bad tt
    | inl good ↦ elim (Bool-cases (is_some (lookup id db.tickets))) [
      | inl there ↦ rw (good, there) h
      | inr absent ↦ rw (good, absent) (p.inserted id input db good absent h)
    ]
  ]

  edit_where-Written :
      (test : TicketRow → Bool) (id : ℕ) (input : UpdateInput) (found : Option TicketRow)
      (db : TicketsDb)
      → lookup id db.tickets ≡ found
      → I db
      → Written I (edit_where test id input found db)
  unfolding edit_where edit_row
  edit_where-Written test id input none db e h = h
  edit_where-Written test id input (some row) db e h = elim (Bool-cases (test row)) [
    | inr fail ↦ rw fail h
    | inl pass ↦ elim (Bool-cases (row.aggregate_version == max_version)) [
      | inl top ↦ rw (pass, top) tt
      | inr room ↦ elim (Bool-cases (price_ok input.price)) [
        | inr bad ↦ rw (pass, room, bad) tt
        | inl good ↦ rw (pass, room, good) (p.edited id input row db e room good h)
      ]
    ]
  ]

  insert_operation-Written :
      (id : ℕ) (input : UpdateInput) (updated : Ticket) (db : TicketsDb)
      → I db
      → Written I (insert_operation id input updated db)
  unfolding insert_operation
  insert_operation-Written id input updated db h =
      elim (Bool-cases (is_some (find_operation id input db.operations))) [
        | inl known ↦ rw known tt
        | inr new ↦ elim (Bool-cases (price_ok updated.price)) [
          | inr bad ↦ rw (new, bad) tt
          | inl good ↦ rw (new, good) (p.recorded _ db h)
        ]
      ]

  pub create-Keeps : (random_id : ℕ) (input : CreateInput) → Keeps I (create random_id input)
  unfolding create
  create-Keeps random_id input =
      keeps_bind I
        (Keeps-statement I database (insert_ticket (id_or random_id input.id) input)
          (insert_ticket-Written (id_or random_id input.id) input))
        λ _. keeps_bind I (Keeps-query I database _) λ found.
          keeps_bind I (Keeps-require I (database no_rows) found) (λ owner. Keeps-pure_if I _ _ _)

  pub update-Keeps : (id : ℕ) (input : UpdateInput) → Keeps I (update id input)
  unfolding update
  update-Keeps id input =
      keeps_bind I
        (Keeps-statement I database _
          (λ db. edit_where-Written _ id input (lookup id db.tickets) db refl))
        (update_rest-Keeps I id input.user_id)

  apply_edit-Keeps :
      (id : ℕ) (input : UpdateInput) (existing : Option OperationRow)
      → Keeps I (apply_edit id input existing)
  unfolding apply_edit
  apply_edit-Keeps id input (some existing) = Keeps-pure I _
  apply_edit-Keeps id input none =
      keeps_bind I
        (Keeps-statement I database _
          (λ db. edit_where-Written _ id input (lookup id db.tickets) db refl))
        λ found. keeps_bind I (Keeps-require I (database no_rows) found) λ updated.
          keeps_bind I
            (Keeps-statement I database (insert_operation id input updated)
              (insert_operation-Written id input updated))
            (λ _. Keeps-pure I updated)

  pass_guards-Keeps : (e : Option Error) → Keeps I (pass_guards e)
  unfolding pass_guards
  pass_guards-Keeps none = Keeps-pure I tt
  pass_guards-Keeps (some e) = Keeps-raise I e

  edit_once-Keeps : (id : ℕ) (input : UpdateInput) → Keeps I (edit_once id input)
  unfolding edit_once
  edit_once-Keeps id input = keeps_bind I (Keeps-query I database _) λ found.
      keeps_bind I (Keeps-require I not_found found) λ pair.
        keeps_bind I (pass_guards-Keeps (guard_error input.user_id pair))
          λ _. keeps_bind I (Keeps-query I database _) (apply_edit-Keeps id input)

  pub update_with_idempotency-Keeps :
      (id : ℕ) (input : UpdateInput) → Keeps I (update_with_idempotency id input)
  unfolding update_with_idempotency
  update_with_idempotency-Keeps id input = Keeps-transaction I database (edit_once-Keeps id input)

module _ (I : TicketsDb → Type 0) (claimed : KeptByClaims I) where
  set_reservation-Written :
      (test : Option ℕ → Bool) (target : Option ℕ) (id : ℕ) (found : Option TicketRow)
      (db : TicketsDb)
      → lookup id db.tickets ≡ found
      → I db
      → I (set_reservation test target id found db).1
  unfolding set_reservation
  set_reservation-Written test target id none db e h = h
  set_reservation-Written test target id (some row) db e h =
      elim (Bool-cases (test row.reserved_by_order_id)) [
        | inr fail ↦ rw fail h
        | inl pass ↦ rw pass (claimed id target row db e h)
      ]

  pub reserve_for_order-Keeps : (id order : ℕ) → Keeps I (reserve_for_order id order)
  unfolding reserve_for_order
  reserve_for_order-Keeps id order =
      keeps_bind I
        (Keeps-statement I database _ (λ db.
          set_reservation-Written (free_or_own order) (some order) id (lookup id db.tickets) db
            refl))
        λ affected. affected_or-Keeps I _ id affected (Keeps-raise I reserved)

  pub release_order_reservation-Keeps :
      (id order : ℕ) → Keeps I (release_order_reservation id order)
  unfolding release_order_reservation
  release_order_reservation-Keeps id order =
      keeps_bind I
        (Keeps-statement I database _
          (λ db. set_reservation-Written (own order) none id (lookup id db.tickets) db refl))
        λ affected. affected_or-Keeps I _ id affected (Keeps-pure I tt)
