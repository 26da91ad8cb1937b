-- ===== src/Tickets/Repository/Frozen.antt =====
-- A ticket that an order holds is not edited, and is claimed by no other order, until that order
-- releases it.
use mathlib.Core.Bool.{false≢true}
use mathlib.Core.Option.{some-injective}
use polyglot_ticketing_v.Base.{
  ℕ, ◌≡◌, ◌≢◌, refl, sym, ap, ◌∙◌, Bool, true, false, Option, none, some, arith, ◌==◌, ==_iff,
  Bool-cases, is_some, inl, inr, Text, text_eq,
}
use polyglot_ticketing_v.Base.Table.{lookup, write, lookup-write}
use polyglot_ticketing_v.Base.Db.{Db, no_rows, ◌>>◌}
use polyglot_ticketing_v.Base.Db.Laws.{ensures_bind, ensures_given, ensures_query}
use polyglot_ticketing_v.Base.Db.Keeps.{
  Keeps, Written, Keeps-pure, Keeps-pure_if, Keeps-raise, keeps_bind, Keeps-statement, Keeps-query,
  Keeps-transaction,
}
use polyglot_ticketing_v.Tickets.Model.{
  Error, forbidden, not_found, reserved, database, Ticket, CreateInput, UpdateInput, TicketRow,
  OperationRow, TicketsDb,
}
use polyglot_ticketing_v.Tickets.Repository.{
  price_ok, require, id_or, insert_ticket, create, edit_row, edit_where, edited_row, update_rest,
  update, scan_owner, apply_edit, guard_error, pass_guards, edit_once, update_with_idempotency,
  find_operation, insert_operation, set_reservation, free_or_own, own, affected_or,
  reserve_for_order, release_order_reservation, max_version,
}

module _ {A : Type 0} (I : TicketsDb → Type 0) (e : Error) where
  pub Keeps-require : (o : Option A) → Keeps I (require e o)
  unfolding require
  Keeps-require none = Keeps-raise I e
  Keeps-require (some a) = Keeps-pure I a

module _ (I : TicketsDb → Type 0) where
  pub update_rest-Keeps :
      (id : ℕ) (user : Text) (updated : Option Ticket) → Keeps I (update_rest id user updated)
  unfolding update_rest
  update_rest-Keeps id user (some updated) = Keeps-pure I updated
  update_rest-Keeps id user none =
      keeps_bind I (Keeps-query I database _)
        λ row. keeps_bind I (Keeps-require I not_found row) (λ found. Keeps-raise I _)

  pub affected_or-Keeps :
      (present : Db TicketsDb Error (Unit {0})) (id : ℕ) (affected : Bool)
      → Keeps I present
      → Keeps I (affected_or present id affected)
  unfolding affected_or
  affected_or-Keeps present id true h = Keeps-pure I tt
  affected_or-Keeps present id false h =
      keeps_bind I (Keeps-query I database _)
        λ row. keeps_bind I (Keeps-require I not_found row) (λ _. h)

module _ (ticket : ℕ) (row : TicketRow) (order : ℕ)
    (held : row.reserved_by_order_id ≡ some order) where
  abbrev pub At : TicketsDb → Type 0
  At db = lookup ticket db.tickets ≡ some row

  write-At :
      (id : ℕ) (row' : TicketRow) (db : TicketsDb)
      → (id ≡ ticket → row' ≡ row)
      → At db
      → At (record db { tickets = write id row' db.tickets })
  write-At id row' db same h = elim (Bool-cases (ticket == id)) [
    | inl e ↦ ground (arith, lookup-write ticket id row' db.tickets, same (ground arith))
    | inr e ↦ ground (arith, lookup-write ticket id row' db.tickets)
  ]

  insert_ticket-At :
      (id : ℕ) (input : CreateInput) (db : TicketsDb)
      → At db
      → Written At (insert_ticket id input db)
  unfolding insert_ticket
  insert_ticket-At id input db h = elim (Bool-cases (price_ok input.price)) [
    | inr bad ↦ rw bad tt
    | inl good ↦ elim (Bool-cases (is_some (lookup id db.tickets))) [
      | inl there ↦ rw (good, there) h
      | inr absent ↦
          rw (good, absent)
            (write-At id _ db
              (λ e.
                absurd (false≢true (sym absent ∙ ap is_some (ap (λ k. lookup k db.tickets) e ∙ h))))
              h)
    ]
  ]

  -- An edit of the ticket passes no test that wants it unreserved; elsewhere it changes nothing here.
  edit_where-At :
      (test : TicketRow → Bool) (id : ℕ) (input : UpdateInput) (found : Option TicketRow)
      (db : TicketsDb)
      → (id ≡ ticket → test row ≡ false)
      → lookup id db.tickets ≡ found
      → At db
      → Written At (edit_where test id input found db)
  unfolding edit_where edit_row
  edit_where-At test id input none db closed e h = h
  edit_where-At test id input (some r) db closed e h = elim (Bool-cases (test r)) [
    | inr fail ↦ rw fail h
    | inl pass ↦ elim (Bool-cases (r.aggregate_version == max_version)) [
      | inl top ↦ rw (pass, top) tt
      | inr room ↦ elim (Bool-cases (price_ok input.price)) [
        | inr bad ↦ rw (pass, room, bad) tt
        | inl good ↦
            let clash : id ≡ ticket → ⊥ = λ same.
              let found : Option.some r ≡ some row =
                sym e ∙ ap (λ k. lookup k db.tickets) same ∙ h in
              false≢true (sym (closed same) ∙ ap test (sym (some-injective r row found)) ∙ pass) in
            rw (pass, room, good)
              (write-At id (edited_row input r) db (λ same. absurd (clash same)) h)
      ]
    ]
  ]

  insert_operation-At :
      (id : ℕ) (input : UpdateInput) (updated : Ticket) (db : TicketsDb)
      → At db
      → Written At (insert_operation id input updated db)
  unfolding insert_operation
  insert_operation-At id input updated db h =
      elim (Bool-cases (is_some (find_operation id input db.operations))) [
        | inl known ↦ rw known tt
        | inr new ↦ elim (Bool-cases (price_ok updated.price)) [
          | inr bad ↦ rw (new, bad) tt
          | inl good ↦ rw (new, good) h
        ]
      ]

  set_reservation-At :
      (test : Option ℕ → Bool) (target : Option ℕ) (id : ℕ) (found : Option TicketRow)
      (db : TicketsDb)
      → (id ≡ ticket → test (some order) ≡ true → target ≡ some order)
      → lookup id db.tickets ≡ found
      → At db
      → At (set_reservation test target id found db).1
  unfolding set_reservation
  set_reservation-At test target id none db closed e h = h
  set_reservation-At test target id (some r) db closed e h =
      elim (Bool-cases (test r.reserved_by_order_id)) [
        | inr fail ↦ rw fail h
        | inl pass ↦ rw pass (
            write-At id (record r { reserved_by_order_id = target }) db
              (λ same.
                let found : Option.some r ≡ some row =
                  sym e ∙ ap (λ k. lookup k db.tickets) same ∙ h in
                let was : r ≡ row = some-injective r row found in
                let reserved_by : r.reserved_by_order_id ≡ some order =
                  ap (λ (x : TicketRow). x.reserved_by_order_id) was ∙ held in
                let kept : target ≡ some order = closed same (ap test (sym reserved_by) ∙ pass) in
                ap (λ (o : Option ℕ). record r { reserved_by_order_id = o })
                  (kept ∙ sym reserved_by)
                ∙ was)
              h)
      ]

  pub create-At : (random_id : ℕ) (input : CreateInput) → Keeps At (create random_id input)
  unfolding create
  create-At random_id input =
      keeps_bind At
        (Keeps-statement At database (insert_ticket (id_or random_id input.id) input)
          (insert_ticket-At (id_or random_id input.id) input))
        λ _. keeps_bind At (Keeps-query At database _) λ found.
          keeps_bind At (Keeps-require At (database no_rows) found)
            (λ owner. Keeps-pure_if At _ _ _)

  pub update-At : (id : ℕ) (input : UpdateInput) → Keeps At (update id input)
  unfolding update
  update-At id input =
      keeps_bind At
        (Keeps-statement At database _ λ db h.
          edit_where-At _ id input (lookup id db.tickets) db (λ _. rw held (ground arith)) refl h)
        (update_rest-Keeps At id input.user_id)

  pass_guards-At :
      {A : Type 0} (user : Text) (owner : Text) (reservation : Option ℕ)
      (rest : Db TicketsDb Error A)
      → reservation ≡ some order
      → Keeps At (pass_guards (guard_error user (owner, reservation)) >> rest)
  unfolding pass_guards
  pass_guards-At user owner reservation rest e = elim (Bool-cases (text_eq owner user)) [
    | inr stranger ↦ rw stranger (Keeps-raise At forbidden)
    | inl owned ↦ rw (owned, e) (Keeps-raise At reserved)
  ]

  -- An edit of another ticket leaves this one alone.
  apply_edit-At :
      (id : ℕ) (input : UpdateInput) (existing : Option OperationRow)
      → (id ≡ ticket → ⊥)
      → Keeps At (apply_edit id input existing)
  unfolding apply_edit
  apply_edit-At id input (some existing) other = Keeps-pure At _
  apply_edit-At id input none other =
      keeps_bind At
        (Keeps-statement At database _
          λ db h. edit_where-At _ id input (lookup id db.tickets) db (λ e. absurd (other e)) refl h)
        λ found. keeps_bind At (Keeps-require At (database no_rows) found) λ updated.
          keeps_bind At
            (Keeps-statement At database (insert_operation id input updated)
              (insert_operation-At id input updated))
            (λ _. Keeps-pure At updated)

  pass_guards-Keeps : (e : Option Error) → Keeps At (pass_guards e)
  unfolding pass_guards
  pass_guards-Keeps none = Keeps-pure At tt
  pass_guards-Keeps (some e) = Keeps-raise At e

  -- Behind the lock the held ticket itself passes no guard.
  edit_once-At : (id : ℕ) (input : UpdateInput) → Keeps At (edit_once id input)
  unfolding edit_once
  edit_once-At id input = elim (Bool-cases (id == ticket)) [
    | inr other ↦ keeps_bind At (Keeps-query At database _) λ found.
        keeps_bind At (Keeps-require At not_found found) λ pair.
          keeps_bind At (pass_guards-Keeps (guard_error input.user_id pair)) λ _.
            keeps_bind At (Keeps-query At database _)
              λ existing. apply_edit-At id input existing (λ e. ground arith)
    | inl same ↦
        ensures_bind (λ found db. At db × (found ≡ some (row.user_id, row.reserved_by_order_id)))
          (ensures_query database _
            (λ db h.
              (h, ap scan_owner (ap (λ k. lookup k db.tickets) ((==_iff id ticket).0 same) ∙ h)))
            (λ e db h. h))
          (λ found.
            ensures_given
              λ e. rw e (pass_guards-At input.user_id row.user_id row.reserved_by_order_id _ held))
  ]

  pub update_with_idempotency-At :
      (id : ℕ) (input : UpdateInput) → Keeps At (update_with_idempotency id input)
  unfolding update_with_idempotency
  update_with_idempotency-At id input = Keeps-transaction At database (edit_once-At id input)

  pub reserve_for_order-At : (id other : ℕ) → Keeps At (reserve_for_order id other)
  unfolding reserve_for_order free_or_own
  reserve_for_order-At id other =
      keeps_bind At
        (Keeps-statement At database _ λ db h.
          set_reservation-At (free_or_own other) (some other) id (lookup id db.tickets) db
            (λ _ pass. ground arith) refl h)
        λ affected. affected_or-Keeps At _ id affected (Keeps-raise At reserved)

  pub release_order_reservation-At :
      (id other : ℕ) → (id ≡ ticket → other ≢ order) → Keeps At (release_order_reservation id other)
  unfolding release_order_reservation own
  release_order_reservation-At id other apart =
      keeps_bind At
        (Keeps-statement At database _ λ db h.
          set_reservation-At (own other) none id (lookup id db.tickets) db
            (λ same pass. absurd (apart same (sym ((==_iff order other).0 pass)))) refl h)
        λ affected. affected_or-Keeps At _ id affected (Keeps-pure At tt)
