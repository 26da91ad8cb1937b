-- ===== src/Tickets/Repository/Recorded.antt =====
-- What is recorded of a ticket at a version: its row is not at an earlier one, and at that version it has
-- a title and a price.
use mathlib.Core.Option.{none-ne-some}
use mathlib.Core.Path.{subst}
use polyglot_ticketing_v.Base.{
  ℕ, ◌≡◌, ◌≤◌, refl, ◌∙◌, some, List, [], ◌∷◌, ◌++◌, arith, Bool-cases, ◌==◌, inl, inr, Text,
}
use polyglot_ticketing_v.Base.Int.{ℤ}
use polyglot_ticketing_v.Base.Table.{lookup, write, lookup-write}
use polyglot_ticketing_v.Tickets.Model.{Ticket, UpdateInput, TicketRow, OperationRow, TicketsDb}
use polyglot_ticketing_v.Tickets.Repository.{is_operation, find_operation, scan_operation}

-- The ticket is there, at this version or a later one; at this one it has this title and price.
abbrev pub Recorded : ℕ → ℕ → Text → ℤ → TicketsDb → Type 0
Recorded id version title price db =
    (row : TicketRow) × (lookup id db.tickets ≡ some row)
    × (version ≤ row.aggregate_version)
    × (version ≡ row.aggregate_version → (row.title ≡ title) × (row.price ≡ price))

abbrev pub TicketRecorded : Ticket → TicketsDb → Type 0
TicketRecorded t db = Recorded t.id t.aggregate_version t.title t.price db

abbrev pub Onward : TicketsDb → TicketsDb → Type 0
Onward a b =
    (id version : ℕ) (title : Text) (price : ℤ)
    → Recorded id version title price a
    → Recorded id version title price b

-- The second row is a later one than the first, or at its version with its title and price.
abbrev pub Succeeds : TicketRow → TicketRow → Type 0
Succeeds old row =
    (old.aggregate_version ≤ row.aggregate_version)
    × (old.aggregate_version ≡ row.aggregate_version
        → (row.title ≡ old.title) × (row.price ≡ old.price))

pub write-Onward :
    (id : ℕ) (row : TicketRow) (db : TicketsDb)
    → ((old : TicketRow) → lookup id db.tickets ≡ some old → Succeeds old row)
    → Onward db (record db { tickets = write id row db.tickets })
write-Onward id row db follows ticket version title price (now, there, low, at) =
    elim (Bool-cases (ticket == id)) [
      | inr other ↦ (now, ground (arith, lookup-write ticket id row db.tickets), low, at)
      | inl one ↦
          let (later, kept) = follows now (ground (arith, there)) in
          (
            row,
            ground (arith, lookup-write ticket id row db.tickets),
            ground arith,
            λ e.
                let same : now.aggregate_version ≡ row.aggregate_version = ground arith in
                let (t, p) = at (ground arith) in let (t', p') = kept same in (t' ∙ t, p' ∙ p),
          )
    ]

-- A row written at its own id is recorded at once.
pub write-Recorded :
    (id : ℕ) (row : TicketRow) (db : TicketsDb)
    → Recorded id row.aggregate_version row.title row.price
        (record db { tickets = write id row db.tickets })
write-Recorded id row db =
    (row, ground (arith, lookup-write id id row db.tickets), ground arith, λ _. (refl, refl))

-- The title and the price that a ticket is created with.
pub record Draft : Type 0 where
  pub title : Text
  pub price : ℤ
  pub user_id : Text

abbrev pub AllRecorded : List OperationRow → TicketsDb → Type 0
AllRecorded [] db = Unit
AllRecorded (op ∷ ops) db = TicketRecorded (scan_operation op) db × AllRecorded ops db

pub AllRecorded-Onward :
    (ops : List OperationRow) (a b : TicketsDb) → Onward a b → AllRecorded ops a → AllRecorded ops b
AllRecorded-Onward [] a b on h = tt
AllRecorded-Onward (op ∷ ops) a b on h = (on _ _ _ _ h.0, AllRecorded-Onward ops a b on h.1)

pub ++-AllRecorded :
    (ops : List OperationRow) (op : OperationRow) (db : TicketsDb)
    → AllRecorded ops db
    → TicketRecorded (scan_operation op) db
    → AllRecorded (ops ++ op ∷ []) db
++-AllRecorded [] op db h k = (k, tt)
++-AllRecorded (o ∷ ops) op db h k = (h.0, ++-AllRecorded ops op db h.1 k)

pub find_operation-AllRecorded :
    (id : ℕ) (input : UpdateInput) (ops : List OperationRow) (op : OperationRow) (db : TicketsDb)
    → AllRecorded ops db
    → find_operation id input ops ≡ some op
    → TicketRecorded (scan_operation op) db
unfolding find_operation
find_operation-AllRecorded id input [] op db h e = absurd (none-ne-some op e)
find_operation-AllRecorded id input (o ∷ ops) op db h e =
    elim (Bool-cases (is_operation id input o)) [
      | inl hit ↦
          let was : o ≡ op = ground (arith, e, hit) in
          subst (λ x. TicketRecorded (scan_operation x) db) was h.0
      | inr miss ↦ find_operation-AllRecorded id input ops op db h.1 (ground (arith, e, miss))
    ]

-- A row at the first version has the title and price of its creation.
abbrev pub IsOriginal : Draft → TicketRow → Type 0
IsOriginal draft row =
    (1 ≤ row.aggregate_version)
    × (1 ≡ row.aggregate_version → (row.title ≡ draft.title) × (row.price ≡ draft.price))

module _ (origin : ℕ → Draft) where
  -- Rows at their first version are as created, and stored snapshots are recorded.
  pub record IsRecorded (db : TicketsDb) : Type 0 where
    pub original :
        (id : ℕ) (row : TicketRow) → lookup id db.tickets ≡ some row → IsOriginal (origin id) row
    pub snapshots : AllRecorded db.operations db

  pub write-IsRecorded :
      (id : ℕ) (row : TicketRow) (db : TicketsDb)
      → ((old : TicketRow) → lookup id db.tickets ≡ some old → Succeeds old row)
      → IsOriginal (origin id) row
      → IsRecorded db
      → IsRecorded (record db { tickets = write id row db.tickets })
  write-IsRecorded id row db follows first h = record {
    original = λ i r e. elim (Bool-cases (i == id)) [
      | inl same ↦
          let was : row ≡ r = ground (arith, lookup-write i id row db.tickets) in
          let at : id ≡ i = ground arith in
          subst (λ x. IsOriginal (origin i) x) was (subst (λ k. IsOriginal (origin k) row) at first)
      | inr other ↦ h.original i r (ground (arith, lookup-write i id row db.tickets))
    ];
    snapshots = AllRecorded-Onward db.operations db _ (write-Onward id row db follows) h.snapshots;
  }

  -- The tables are recorded, and what held of a version at the start still holds.
  pub record From (start db : TicketsDb) : Type 0 where
    pub recorded : IsRecorded db
    pub onward : Onward start db

  pub write-From :
      (start : TicketsDb) (id : ℕ) (row : TicketRow) (db : TicketsDb)
      → ((old : TicketRow) → lookup id db.tickets ≡ some old → Succeeds old row)
      → IsOriginal (origin id) row
      → From start db
      → From start (record db { tickets = write id row db.tickets })
  write-From start id row db follows first h = record {
    recorded = write-IsRecorded id row db follows first h.recorded;
    onward = λ i v t p r. write-Onward id row db follows i v t p (h.onward i v t p r);
  }

  -- A snapshot of what the ticket is may be stored.
  pub store-From :
      (start : TicketsDb) (op : OperationRow) (db : TicketsDb)
      → TicketRecorded (scan_operation op) db
      → From start db
      → From start (record db { operations = db.operations ++ op ∷ [] })
  store-From start op db now h = record {
    recorded = record {
      original = h.recorded.original;
      snapshots =
          AllRecorded-Onward (db.operations ++ op ∷ []) db _ (λ i v t p r. r)
            (++-AllRecorded db.operations op db h.recorded.snapshots now);
    };
    onward = h.onward;
  }
