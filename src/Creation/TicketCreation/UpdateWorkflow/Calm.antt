-- ===== src/Creation/TicketCreation/UpdateWorkflow/Calm.antt =====
-- An update where nothing goes wrong.
use mathlib.Core.Path.{subst}
use polyglot_ticketing_v.Base.{
  ℕ, suc, ◌≡◌, ◌+◌, ◌||◌, ◌==◌, refl, sym, ap, true, false, not, [], ◌∷◌, Option, none, some, Text,
  text_eq, is_some, Result, ok, arith,
}
use polyglot_ticketing_v.Base.Table.{lookup, write}
use polyglot_ticketing_v.Base.Db.{Session, statement, perform}
use polyglot_ticketing_v.Base.Db.Retry.{calm}
use polyglot_ticketing_v.Base.Temporal.{Failure}
use polyglot_ticketing_v.Base.Grpc.{Status, respond}
use polyglot_ticketing_v.Base.Validation.{answered}
use polyglot_ticketing_v.World.{World, on_orders, on_tickets, map_err}
use polyglot_ticketing_v.Orders.Model as Orders
use polyglot_ticketing_v.Orders.Model.{OrdersDb}
use polyglot_ticketing_v.Orders.Projection.{
  ticket_row, checks, applies, upsert, projection_rest, validate_projection,
  ensure_ticket_projection,
}
use polyglot_ticketing_v.Tickets.Repository.ById.{is_unread, update_by_text}
use polyglot_ticketing_v.Tickets.Model.{Error, Ticket, TicketRow, TicketsDb}
use polyglot_ticketing_v.Tickets.Repository.{
  price_ok, edited_row, scan_edited, find_operation, update_with_idempotency, max_version,
}
use polyglot_ticketing_v.Tickets.Repository.Edits.{with_edit, update-new}
use polyglot_ticketing_v.Orders.Server.{
  value, projection_status, project as project_for, handle_ensure_ticket_projection,
}
use polyglot_ticketing_v.Orders.Server.Projected.{requested}
use polyglot_ticketing_v.Orders.Wire.{ProjectionRequest}
use polyglot_ticketing_v.Creation.TicketCreation.Projected.{as_input}
use polyglot_ticketing_v.Creation.TicketCreation.{
  projection_request, projection_failure, project_ticket_to_orders, UpdateTicketInput, bad_fields,
  update_failure, persist_ticket_update, TicketFlow, finish, project, update_ticket_handler,
  advance, drive, follow,
}
use polyglot_ticketing_v.Creation.TicketCreation.UpdateWorkflow.Stages.{
  copy_of, update_input, bad_fields-parts, made-valid,
}

module _ (uuid_parse : Text → Option ℕ) (uuid_text : ℕ → Text)
    (uuid_law : (id : ℕ) → uuid_parse (uuid_text id) ≡ some id) (ticket : ℕ)
    (input : UpdateTicketInput) (row : TicketRow) (w : World)
    (parsed : uuid_parse input.id ≡ some ticket) (read : is_unread input.id ≡ false)
    (fields : bad_fields input.title input.price input.user_id ≡ false)
    (keyed : text_eq input.idempotency_key [] ≡ false)
    (here : lookup ticket w.tickets.tickets ≡ some row)
    (owned : text_eq row.user_id input.user_id ≡ true)
    (free : is_some row.reserved_by_order_id ≡ false)
    (new : find_operation ticket (update_input input) w.tickets.operations ≡ none)
    (room : row.aggregate_version == max_version ≡ false)
    (copied : lookup ticket w.orders.tickets ≡ some (copy_of row)) where
  positive : price_ok input.price ≡ true
  positive =
      let (_, inside) = bad_fields-parts input.title input.price input.user_id fields in
      ground (arith, inside)

  abbrev updated : Ticket
  updated = scan_edited ticket (edited_row (update_input input) row)

  abbrev edited_world : World
  edited_world = record w { tickets = with_edit ticket (update_input input) row w.tickets }

  persist-calm :
      persist_ticket_update uuid_parse uuid_text input (calm w) ≡ (ok updated, calm edited_world)
  unfolding persist_ticket_update update_by_text
  persist-calm =
      let guard : (not (is_some (uuid_parse input.id))
            || bad_fields input.title input.price input.user_id
            || text_eq input.idempotency_key [])
          ≡ false =
        rw (parsed, fields, keyed) refl in
      let same : ticket ≡ elim (uuid_parse input.id) [ none ↦ 0 | some v ↦ v ] = rw parsed refl in
      let made : map_err update_failure
            (on_tickets (update_with_idempotency ticket (update_input input))) (calm w)
          ≡ (ok updated, calm edited_world) =
        ap
          (λ (r : Result Error Ticket × Session TicketsDb).
            map_err update_failure (on_tickets (λ _. r)) (calm w))
          (update-new ticket (update_input input) row w.tickets here owned free new positive
            room) in
      rw guard (
        rw read (
          subst
            (λ id.
              map_err update_failure (on_tickets (update_with_idempotency id (update_input input)))
                (calm w)
              ≡ (ok updated, calm edited_world))
            same made))

  abbrev projected_world : World
  projected_world = record edited_world {
    orders = record w.orders {
      tickets = write ticket (ticket_row (as_input updated)) w.orders.tickets;
    };
  }

  checks-updated : checks (ticket_row (as_input updated)) ≡ true
  unfolding checks
  checks-updated = ground (arith, positive)

  applies-updated : applies (as_input updated) (some (copy_of row)) ≡ true
  unfolding applies
  applies-updated =
      let next : row.aggregate_version + 1 ≡ suc row.aggregate_version = ground arith in
      rw next (ground arith)

  upsert-calm :
      ensure_ticket_projection (as_input updated) (calm w.orders)
      ≡ (ok tt, calm projected_world.orders)
  unfolding ensure_ticket_projection upsert statement perform projection_rest
  upsert-calm = rw (checks-updated, copied, applies-updated) refl

  abbrev request : ProjectionRequest
  request = projection_request uuid_parse uuid_text updated

  handler-calm :
      handle_ensure_ticket_projection uuid_parse
        (some ensure_ticket_projection)
        request
        (calm w.orders)
      ≡ (ok tt, calm projected_world.orders)
  unfolding handle_ensure_ticket_projection project_for
  handler-calm =
      let same : ticket ≡ value uuid_parse request.id = ground (arith, uuid_law ticket) in
      let valid : validate_projection uuid_parse request.id
            (requested request (value uuid_parse request.id))
          ≡ true =
        subst (λ i. validate_projection uuid_parse request.id (requested request i) ≡ true) same
          (made-valid uuid_parse uuid_text uuid_law ticket input row fields) in
      let answer : ensure_ticket_projection (requested request (value uuid_parse request.id))
            (calm w.orders)
          ≡ (ok tt, calm projected_world.orders) =
        subst
          (λ i.
            ensure_ticket_projection (requested request i) (calm w.orders)
            ≡ (ok tt, calm projected_world.orders))
          same upsert-calm in
      rw valid (
        ap
          (λ (r : Result Orders.Error (Unit {0}) × Session OrdersDb).
            (respond projection_status (λ (u : Unit {0}). u) (answered r.0), r.1))
          answer)

  project-calm :
      project_ticket_to_orders uuid_parse uuid_text updated (calm edited_world)
      ≡ (ok tt, calm projected_world)
  unfolding project_ticket_to_orders
  project-calm =
      ap
        (λ (r : Result Status (Unit {0}) × Session OrdersDb).
          map_err (λ (status : Status). projection_failure status.code) (on_orders (λ _. r))
            (calm edited_world))
        handler-calm

  advance-persist :
      advance uuid_parse uuid_text 0 [] (update_ticket_handler input) w
      ≡ (project updated (finish (ok updated)), edited_world)
  unfolding advance update_ticket_handler
  advance-persist = rw persist-calm refl

  advance-project :
      advance uuid_parse uuid_text 0 [] (project updated (finish (ok updated))) edited_world
      ≡ (finish (ok updated), projected_world)
  unfolding advance
  advance-project =
      ap
        (λ (r : Result Failure (Unit {0}) × Session World). (
          follow (project updated (finish (ok updated))) (λ _. finish (ok updated)) r.0,
          r.1.tables,
        ))
        project-calm

  -- If UUIDs go through their texts unchanged: an update, under an id that PostgreSQL reads, by the owner of a ticket that no order has
  -- claimed, with fields that the activity accepts and an idempotency key that is not empty and was not
  -- used before, where Orders' copy is Tickets' row and the version is not the largest BIGINT, completes
  -- in two attempts where nothing goes wrong and nothing happens between them: it returns the ticket
  -- with the new title and price, one version on; Tickets has that row and its snapshot under the key,
  -- and Orders has the copy.
  pub update_completes :
      drive uuid_parse uuid_text
        ((0, [], w) ∷ (0, [], edited_world) ∷ [])
        (update_ticket_handler input)
        w
      ≡ (finish (ok updated), projected_world)
  unfolding drive update_ticket_handler
  update_completes =
      let step : TicketFlow × World → Type 0 = λ r.
        drive uuid_parse uuid_text ((0, [], edited_world) ∷ []) r.0 r.1
        ≡ (finish (ok updated), projected_world) in
      let last : TicketFlow × World → Type 0 =
        λ r. drive uuid_parse uuid_text [] r.0 r.1 ≡ (finish (ok updated), projected_world) in
      subst step (sym advance-persist) (subst last (sym advance-project) refl)
