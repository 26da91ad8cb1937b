-- ===== src/Creation/TicketCreation/Coordinator.antt =====
-- apps/tickets/internal/creation/coordinator.go: what the service asks of Temporal.
use polyglot_ticketing_v.Base.{
  ℕ, List, [], ◌∷◌, ◌++◌, Option, none, some, Text, runes, Result, ok, err,
}
use polyglot_ticketing_v.Base.Temporal.{
  FailureType, invalid_ticket, invalid_ticket_update, invalid_projection, ticket_update_forbidden,
  ticket_update_reserved, ticket_update_not_found, non_retryable, WaitError, workflow_failed,
  another_error, Client, start_or_join, await_run,
}
use polyglot_ticketing_v.Tickets.Model.{
  Error, forbidden, not_found, reserved, unavailable, Ticket, CreateInput, UpdateInput,
}
use polyglot_ticketing_v.Creation.TicketCreation.{
  TicketFlow, create_ticket_workflow, update_ticket_handler,
}

-- An error of package ticket, or one of Temporal that is passed on.
pub data CoordinatorError : Type 0 where
  known : Error → CoordinatorError
  passed : WaitError → CoordinatorError

-- What `Create` makes of the error of `run.Get`.
pub create_wait_error : WaitError → CoordinatorError
create_wait_error (workflow_failed (non_retryable invalid_ticket)) =
    passed (workflow_failed (non_retryable invalid_ticket))
create_wait_error (workflow_failed (non_retryable invalid_projection)) =
    passed (workflow_failed (non_retryable invalid_projection))
create_wait_error another_error = passed another_error
create_wait_error _ = known unavailable

update_type_error : FailureType → CoordinatorError
update_type_error ticket_update_forbidden = known forbidden
update_type_error ticket_update_reserved = known reserved
update_type_error ticket_update_not_found = known not_found
update_type_error invalid_ticket_update =
    passed (workflow_failed (non_retryable invalid_ticket_update))
update_type_error invalid_projection = passed (workflow_failed (non_retryable invalid_projection))
update_type_error _ = known unavailable

-- What `Update` makes of the error of `handle.Get`.
pub update_wait_error : WaitError → CoordinatorError
unfolding update_type_error
update_wait_error (workflow_failed (non_retryable t)) = update_type_error t
update_wait_error _ = known unavailable

-- SHA-256 of the JSON of a list of strings, in hexadecimal, is what the standard library computes.
module _ (operation_key : List Text → Text) (uuid_text : ℕ → Text) where
  pub create_workflow_id : ℕ → CreateInput → Text
  create_workflow_id random_id input = elim input.idempotency_key [
    | none ↦ runes "create-ticket/" ++ uuid_text random_id
    | some key ↦ runes "create-ticket/" ++ operation_key (input.user_id ∷ key ∷ [])
  ]

  -- `Create`, with what uuid.NewString() gives the workflow and the ticket.
  pub create_ticket :
      {Run : Type 0}
      → Client TicketFlow Ticket Run
      → ℕ
      → ℕ
      → CreateInput
      → Result CoordinatorError Ticket
  unfolding create_workflow_id create_wait_error create_ticket_workflow
  create_ticket client random_id new_id input =
      await_run client (known unavailable) create_wait_error (
        start_or_join client (create_workflow_id random_id input) (
          create_ticket_workflow (record {
            id = uuid_text new_id;
            title = input.title;
            price = input.price;
            user_id = input.user_id;
          })))

  -- `Update`, by the call that runs an update on the ticket's workflow, under the two ids; `none` is
  -- an error of it.
  pub update_ticket :
      (Text → Text → TicketFlow → Option (Result WaitError Ticket))
      → Text
      → UpdateInput
      → Result CoordinatorError Ticket
  unfolding update_wait_error update_ticket_handler
  update_ticket update_with_start id input =
      let answer =
        update_with_start (runes "ticket-updates/" ++ id)
          (runes "update-ticket/"
            ++ operation_key (id ∷ input.user_id ∷ input.idempotency_key ∷ []))
          (update_ticket_handler (record {
            id = id;
            idempotency_key = input.idempotency_key;
            title = input.title;
            price = input.price;
            user_id = input.user_id;
          })) in
      elim answer [
        | none ↦ err (known unavailable)
        | some r ↦ elim r [ ok updated ↦ ok updated | err e ↦ err (update_wait_error e) ]
      ]
