-- ===== src/Tickets/Repository/Originals.antt =====
-- A creation keeps what is recorded of the versions, and answers the first version of its ticket.
use mathlib.Core.Option.{none-ne-some}
use mathlib.Core.Path.{subst}
use mathlib.Core.Bool.{false≢true}
use polyglot_ticketing_v.Base.{
  ℕ, ◌≡◌, refl, sym, ap, ◌∙◌, Option, none, some, arith, Bool-cases, Option-cases, is_some, inl,
  inr, Text,
}
use polyglot_ticketing_v.Base.Table.{lookup}
use polyglot_ticketing_v.Base.Db.{no_rows}
use polyglot_ticketing_v.Base.Db.Laws.{Ensures, ensures_pure_if}
use polyglot_ticketing_v.Base.Db.Answers.{
  Good, Answers, Gives, answers_bind, answers_statement, answers_query,
}
use polyglot_ticketing_v.Tickets.Model.{Error, database, CreateInput, TicketRow, TicketsDb}
use polyglot_ticketing_v.Tickets.Repository.{
  price_ok, id_or, created_row, insert_ticket, create_rest, create_at, create, require, owner_of,
}
use polyglot_ticketing_v.Tickets.Repository.Recorded.{
  Recorded, TicketRecorded, Draft, From, write-From,
}

module _ (origin : ℕ → Draft) (start : TicketsDb) where
  abbrev I : TicketsDb → Type 0
  I db = From origin start db

  module _ (id : ℕ) (input : CreateInput) (title : input.title ≡ (origin id).title)
      (price : input.price ≡ (origin id).price) where
    insert_ticket-Gives :
        (db : TicketsDb) → I db → Gives I (λ _ _. Unit {0}) (insert_ticket id input db)
    unfolding insert_ticket
    insert_ticket-Gives db h = elim (Bool-cases (price_ok input.price)) [
      | inr bad ↦ rw bad tt
      | inl good ↦ elim (Bool-cases (is_some (lookup id db.tickets))) [
        | inl there ↦ rw (good, there) (h, tt)
        | inr absent ↦
            rw (good, absent)
              (
                write-From origin start id (created_row input) db
                    (λ old e. absurd (false≢true (sym absent ∙ ap is_some e)))
                    (ground arith, λ _. (title, price)) h,
                tt,
              )
      ]
    ]

    -- What a creation answers of a ticket that is there.
    create_rest-Answers :
        (owner : Text)
        → Ensures
            (λ db. I db × Recorded id 1 (origin id).title (origin id).price db)
            (create_rest id input owner)
            (Good I TicketRecorded)
    unfolding create_rest
    create_rest-Answers owner =
        ensures_pure_if _ _ _ (λ _ db h. rw (title, price) h) (λ _ db h. h.0)

  original-Recorded :
      (id : ℕ) (row : TicketRow) (db : TicketsDb)
      → I db
      → lookup id db.tickets ≡ some row
      → Recorded id 1 (origin id).title (origin id).price db
  original-Recorded id row db h e =
      let (low, at) = h.recorded.original id row e in (row, e, low, at)

  pub require-Answers :
      {A : Type 0} (Q : A → TicketsDb → Type 0) (e : Error) (found : Option A)
      → Ensures (λ db. I db × ((a : A) → found ≡ some a → Q a db)) (require e found) (Good I Q)
  unfolding require
  require-Answers Q e none = record { holds = λ s h. h.0 }
  require-Answers Q e (some a) = record { holds = λ s h. (h.0, h.1 a refl) }

  owner-Recorded :
      (id : ℕ) (db : TicketsDb)
      → I db
      → (owner : Text) → owner_of (lookup id db.tickets) ≡ some owner
      → Recorded id 1 (origin id).title (origin id).price db
  owner-Recorded id db h owner e = elim (Option-cases (lookup id db.tickets)) [
    | inl absent ↦ absurd (none-ne-some owner (ap owner_of (sym absent) ∙ e))
    | inr (row, there) ↦ original-Recorded id row db h there
  ]

  -- The ticket is there at version 1 or later, where an owner was found.
  abbrev Owned : ℕ → Option Text → TicketsDb → Type 0
  Owned id found db =
      (owner : Text) → found ≡ some owner → Recorded id 1 (origin id).title (origin id).price db

  create_at-Answers :
      (id : ℕ) (input : CreateInput)
      → input.title ≡ (origin id).title
      → input.price ≡ (origin id).price
      → Answers I (create_at id input) TicketRecorded
  unfolding create_at
  create_at-Answers id input title price =
      answers_bind I (λ _ _. Unit {0})
        (answers_statement I (λ _ _. Unit {0}) database (insert_ticket id input) (λ db h. h)
          (insert_ticket-Gives id input title price))
        λ _.
          answers_bind I (Owned id) {P = λ db. I db × Unit {0}}
            (answers_query I (Owned id) database _ (λ db h. h.0) (λ db h. owner-Recorded id db h.0))
            λ found.
              answers_bind I (λ _ db. Recorded id 1 (origin id).title (origin id).price db)
                (require-Answers (λ _ db. Recorded id 1 (origin id).title (origin id).price db)
                  (database no_rows) found)
                (create_rest-Answers id input title price)

  -- The creation of a ticket from its draft answers the ticket at version 1.
  pub create-Answers :
      (random_id id : ℕ) (input : CreateInput)
      → input.id ≡ some id
      → input.title ≡ (origin id).title
      → input.price ≡ (origin id).price
      → Answers I (create random_id input) TicketRecorded
  unfolding create
  create-Answers random_id id input named title price =
      let at : id ≡ id_or random_id input.id = ground (arith, named) in
      subst (λ i. Answers I (create_at i input) TicketRecorded) at
        (create_at-Answers id input title price)
