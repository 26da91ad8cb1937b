-- ===== src/Creation/TicketCreation/UpdateWorkflow/Stages.antt =====
-- How far Orders' copy of a ticket is behind Tickets while the handler of an update goes on.
use mathlib.Core.Path.{subst}
use mathlib.Core.Option.{some-injective}
use polyglot_ticketing_v.Base.{
  ℕ, ◌≡◌, ◌≤◌, ◌⊎◌, ◌||◌, sym, ap, ◌∙◌, true, false, List, [], Option, some, Text, text_eq,
  trim_space, err, inl, inr, Bool-cases, arith,
}
use polyglot_ticketing_v.Base.Int.{ℤ, pos, suc_ℤ, leb_ℤ, ltb_ℤ}
use polyglot_ticketing_v.Base.Table.{lookup}
use polyglot_ticketing_v.Base.Db.{Fault}
use polyglot_ticketing_v.Base.Temporal.{Failure}
use polyglot_ticketing_v.World.{World}
use polyglot_ticketing_v.Orders.Model as Orders
use polyglot_ticketing_v.Orders.Projection.{ticket_row, validate_projection}
use polyglot_ticketing_v.Tickets.Model.{Ticket, TicketRow, UpdateInput, TicketsDb}
use polyglot_ticketing_v.Tickets.Repository.{edited_row, scan_edited}
use polyglot_ticketing_v.Tickets.Repository.Recorded.{TicketRecorded}
use polyglot_ticketing_v.Tickets.Repository.Edited.{Edited, find_operation-ticket_id}
use polyglot_ticketing_v.Tickets.Service.{max_price}
use polyglot_ticketing_v.Creation.TicketCreation.{
  UpdateTicketInput, bad_fields, persist_ticket_update, TicketFlow, persist_update,
}
use polyglot_ticketing_v.Creation.TicketCreation.Projected.{as_input}

-- Tickets' row, as Orders copies it.
abbrev pub copy_of : TicketRow → Orders.TicketRow
copy_of row = record {
  title = row.title;
  price = row.price;
  aggregate_version = pos row.aggregate_version;
}

-- The edit of the activity.
abbrev pub update_input : UpdateTicketInput → UpdateInput
update_input input = record {
  idempotency_key = input.idempotency_key;
  title = input.title;
  price = input.price;
  user_id = input.user_id;
}

pub bad_fields-parts :
    (title : Text) (price : ℤ) (user_id : Text)
    → bad_fields title price user_id ≡ false
    → (text_eq (trim_space title) [] ≡ false)
      × ((leb_ℤ price (pos 0) || ltb_ℤ max_price price) ≡ false)
unfolding bad_fields
bad_fields-parts title price user_id h = elim (Bool-cases (text_eq (trim_space title) [])) [
  | inl empty ↦ absurd (ground arith)
  | inr titled ↦ elim (Bool-cases (leb_ℤ price (pos 0) || ltb_ℤ max_price price)) [
    | inl outside ↦ absurd (ground arith)
    | inr inside ↦ (titled, inside)
  ]
]

-- Orders' copy is Tickets' row.
abbrev pub IsLevel : ℕ → World → Type 0
IsLevel ticket w =
    (row : TicketRow) × (lookup ticket w.tickets.tickets ≡ some row)
    × (lookup ticket w.orders.tickets ≡ some (copy_of row))

-- It is, and this is an earlier version or the same.
abbrev pub IsPast : ℕ → Ticket → World → Type 0
IsPast ticket t w =
    (row : TicketRow) × (lookup ticket w.tickets.tickets ≡ some row)
    × (lookup ticket w.orders.tickets ≡ some (copy_of row))
    × (t.aggregate_version ≤ row.aggregate_version)

module _ (uuid_parse : Text → Option ℕ) (uuid_text : ℕ → Text) where
  -- An attempt to persist an update that fails has changed nothing: its commit's answer is not lost.
  abbrev pub IsCertain : TicketFlow → List Fault → World → Type 0
  IsCertain (persist_update input next) faults w =
      let (r, s) =
        persist_ticket_update uuid_parse uuid_text input (record { tables = w; faults = faults }) in
      (e : Failure) → r ≡ err e → s.tables ≡ w
  IsCertain _ faults w = Unit

module _ (uuid_parse : Text → Option ℕ) (uuid_text : ℕ → Text) (ticket : ℕ) where
  -- Orders' copy is one version behind Tickets' row, which is this ticket.
  abbrev pub IsBehind : Ticket → World → Type 0
  IsBehind t w =
      (row : TicketRow) × (old : Orders.TicketRow) × (lookup ticket w.tickets.tickets ≡ some row)
      × (lookup ticket w.orders.tickets ≡ some old)
      × (suc_ℤ old.aggregate_version ≡ pos row.aggregate_version)
      × (ticket_row (as_input t) ≡ copy_of row)
      × (validate_projection uuid_parse (uuid_text t.id) (as_input t) ≡ true)

  -- What an update may be about to project.
  abbrev pub Stage : Ticket → World → Type 0
  Stage t w = (t.id ≡ ticket) × (IsPast ticket t w ⊎ IsBehind t w)

module _ (uuid_parse : Text → Option ℕ) (uuid_text : ℕ → Text)
    (uuid_law : (id : ℕ) → uuid_parse (uuid_text id) ≡ some id) (ticket : ℕ) where
  -- An edit whose fields the activity accepts passes Orders' validation.
  pub made-valid :
      (input : UpdateTicketInput) (row : TicketRow)
      → bad_fields input.title input.price input.user_id ≡ false
      → let t = scan_edited ticket (edited_row (update_input input) row) in
        validate_projection uuid_parse (uuid_text t.id) (as_input t) ≡ true
  unfolding validate_projection
  made-valid input row good =
      let (titled, inside) = bad_fields-parts input.title input.price input.user_id good in
      rw (validate_projection, uuid_law ticket) (rw titled (ground (arith, inside)))

  -- What a persisted update has come to.
  pub Edited-Stage :
      (input : UpdateTicketInput) (w : World) (t : Ticket) (db : TicketsDb)
      → bad_fields input.title input.price input.user_id ≡ false
      → IsLevel ticket w
      → TicketRecorded t db
      → Edited ticket (update_input input) w.tickets t db
      → Stage uuid_parse uuid_text ticket t (record w { tickets = db })
  Edited-Stage input w t db good (row, here, copied) (now, there, low, _)
        (inl (same, (op, found, was))) =
      let at : t.id ≡ ticket =
        ap (λ (x : Ticket). x.id) was
        ∙ find_operation-ticket_id ticket (update_input input) w.tickets.operations op found in
      let here' : lookup ticket db.tickets ≡ some row =
        ap (λ (u : TicketsDb). lookup ticket u.tickets) same ∙ here in
      let one : now ≡ row =
        some-injective now row (sym there ∙ ap (λ i. lookup i db.tickets) at ∙ here') in
      (
        at,
        inl (
          row,
          here',
          copied,
          subst (λ (x : TicketRow). t.aggregate_version ≤ x.aggregate_version) one low,
        ),
      )
  Edited-Stage input w t db good (row, here, copied) recorded
        (inr (first, found, written, was, positive)) =
      let one : row ≡ first = some-injective row first (sym here ∙ found) in
      let next : TicketRow = edited_row (update_input input) first in
      (
        ap (λ (x : Ticket). x.id) was,
        inr (
          next,
          copy_of first,
          written,
          copied ∙ ap (λ x. some (copy_of x)) one,
          ap pos (ground arith),
          ap (λ (x : Ticket). ticket_row (as_input x)) was,
          subst
              (λ (x : Ticket). validate_projection uuid_parse (uuid_text x.id) (as_input x) ≡ true)
              (sym was) (made-valid input first good),
        ),
      )
