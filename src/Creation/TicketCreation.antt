-- ===== src/Creation/TicketCreation.antt =====
-- apps/tickets/internal/creation: the workflows that create and update tickets, their activities over
-- the databases of Tickets and Orders. The client of Orders calls the handler of its server.
pub mod Coordinator
pub mod Projected
pub mod UpdateWorkflow
pub mod History
pub mod Gap
pub mod Handed
mod Runs
use polyglot_ticketing_v.Base.{
  ℕ, Bool, true, false, not, ◌||◌, List, [], ◌∷◌, ◌++◌, Option, none, some, Text, runes, text_eq,
  trim_space, Result, ok, err, if◌then◌else◌, is_some,
}
use polyglot_ticketing_v.Base.Int.{ℤ, pos, leb_ℤ, ltb_ℤ}
use polyglot_ticketing_v.Base.Db.{
  check_violation, unique_violation, invalid_text, Fault, Session, Db, raise,
}
use polyglot_ticketing_v.Base.Grpc.{
  Status, Code, already_exists, invalid_argument, permission_denied, unauthenticated, unimplemented,
}
use polyglot_ticketing_v.Base.Temporal.{
  FailureType, invalid_ticket, invalid_ticket_update, invalid_projection, ticket_update_forbidden,
  ticket_update_reserved, ticket_update_not_found, Failure, non_retryable, other_failure,
  StartError, WaitError, timed_out, temporal_unavailable, workflow_failed, another_error, Client,
  start_or_join, await_run,
}
use polyglot_ticketing_v.World.{World, on_orders, on_tickets, map_err, rpc}
use polyglot_ticketing_v.Orders.Projection.{ensure_ticket_projection}
use polyglot_ticketing_v.Orders.Wire.{ProjectionRequest}
use polyglot_ticketing_v.Orders.Server.{handle_ensure_ticket_projection}
use polyglot_ticketing_v.Tickets.Model.{
  Error, forbidden, not_found, reserved, conflict, unavailable, database, Ticket, CreateInput,
  UpdateInput,
}
use polyglot_ticketing_v.Tickets.Repository.{create}
use polyglot_ticketing_v.Tickets.Repository.ById.{update_by_text}
use polyglot_ticketing_v.Tickets.Service.{max_price}

-- `Input` and `UpdateTicketInput`; an id is a text that need not be a UUID.
pub record Input : Type 0 where
  pub id : Text
  pub title : Text
  pub price : ℤ
  pub user_id : Text

pub record UpdateTicketInput : Type 0 where
  pub id : Text
  pub idempotency_key : Text
  pub title : Text
  pub price : ℤ
  pub user_id : Text

-- The conditions of both activities but for the id and the key.
pub bad_fields : Text → ℤ → Text → Bool
bad_fields title price user_id =
    text_eq (trim_space title) []
    || leb_ℤ price (pos 0)
    || ltb_ℤ max_price price
    || text_eq user_id []

-- The errors of `PersistTicket` and of `PersistTicketUpdate`.
pub persist_failure : Error → Failure
persist_failure conflict = non_retryable invalid_ticket
persist_failure (database check_violation) = non_retryable invalid_ticket
persist_failure (database unique_violation) = non_retryable invalid_ticket
persist_failure (database invalid_text) = non_retryable invalid_ticket
persist_failure _ = other_failure

pub update_failure : Error → Failure
update_failure forbidden = non_retryable ticket_update_forbidden
update_failure reserved = non_retryable ticket_update_reserved
update_failure not_found = non_retryable ticket_update_not_found
update_failure (database check_violation) = non_retryable invalid_ticket_update
update_failure (database unique_violation) = non_retryable invalid_ticket_update
update_failure (database invalid_text) = non_retryable invalid_ticket_update
update_failure _ = other_failure

-- The switch of `ProjectTicketToOrders`.
pub projection_failure : Code → Failure
projection_failure invalid_argument = non_retryable invalid_projection
projection_failure already_exists = non_retryable invalid_projection
projection_failure permission_denied = non_retryable invalid_projection
projection_failure unauthenticated = non_retryable invalid_projection
projection_failure unimplemented = non_retryable invalid_projection
projection_failure _ = other_failure

module _ (uuid_parse : Text → Option ℕ) (uuid_text : ℕ → Text) where
  -- `PersistTicket`; `random_id` is uuid.NewString() of the repository, for an input without an id. The
  -- coordinator's ids are uuid.NewString()'s, which PostgreSQL reads.
  pub persist_ticket : ℕ → Input → Db World Failure Ticket
  unfolding bad_fields persist_failure
  persist_ticket random_id input =
      if not (is_some (uuid_parse input.id)) || bad_fields input.title input.price input.user_id
      then raise (non_retryable invalid_ticket)
      else map_err persist_failure (
          on_tickets (
            create random_id (record {
              id = uuid_parse input.id;
              idempotency_key = none;
              title = input.title;
              price = input.price;
              user_id = input.user_id;
            })))

  abbrev value : Text → ℕ
  value id = elim (uuid_parse id) [ none ↦ 0 | some v ↦ v ]

  -- `PersistTicketUpdate`; the id goes on as the text that it is.
  pub persist_ticket_update : UpdateTicketInput → Db World Failure Ticket
  unfolding bad_fields update_failure
  persist_ticket_update input =
      if not (is_some (uuid_parse input.id))
        || bad_fields input.title input.price input.user_id
        || text_eq input.idempotency_key []
      then raise (non_retryable invalid_ticket_update)
      else map_err update_failure (
          on_tickets (
            update_by_text input.id (value input.id) (record {
              idempotency_key = input.idempotency_key;
              title = input.title;
              price = input.price;
              user_id = input.user_id;
            })))

  abbrev pub projection_request : Ticket → ProjectionRequest
  projection_request created = record {
    id = uuid_text created.id;
    title = created.title;
    price = created.price;
    aggregate_version = pos created.aggregate_version;
  }

  -- `ProjectTicketToOrders`.
  pub project_ticket_to_orders : Ticket → Db World Failure (Unit {0})
  unfolding projection_failure
  project_ticket_to_orders created =
      map_err (λ status. projection_failure status.code)
        (rpc (
          on_orders (
            handle_ensure_ticket_projection uuid_parse (some ensure_ticket_projection)
              (projection_request created))))

-- What a workflow of this package waits for.
pub data TicketFlow : Type 0 where
  finish : Result Failure Ticket → TicketFlow
  persist : Input → (Ticket → TicketFlow) → TicketFlow
  persist_update : UpdateTicketInput → (Ticket → TicketFlow) → TicketFlow
  project : Ticket → TicketFlow → TicketFlow

-- `CreateTicketWorkflow`.
pub create_ticket_workflow : Input → TicketFlow
create_ticket_workflow input = persist input λ created. project created (finish (ok created))

-- The handler of `UpdateTicketWorkflow`, behind the lock.
pub update_ticket_handler : UpdateTicketInput → TicketFlow
update_ticket_handler input = persist_update input λ updated. project updated (finish (ok updated))

-- What follows an attempt: an activity that fails for good ends the workflow, another failure is
-- retried.
abbrev pub follow : {A : Type 0} → TicketFlow → (A → TicketFlow) → Result Failure A → TicketFlow
follow again next (ok a) = next a
follow again next (err (non_retryable t)) = finish (err (non_retryable t))
follow again next (err other_failure) = again

abbrev pub attempt :
    {A : Type 0}
    → Db World Failure A
    → TicketFlow
    → (A → TicketFlow)
    → List Fault
    → World
    → TicketFlow × World
attempt activity again next faults w =
    let (r, s) = activity (record { tables = w; faults = faults }) in
    (follow again next r, s.tables)

module _ (uuid_parse : Text → Option ℕ) (uuid_text : ℕ → Text) where
  pub advance : ℕ → List Fault → TicketFlow → World → TicketFlow × World
  unfolding persist_ticket persist_ticket_update project_ticket_to_orders
  advance random_id faults (finish r) w = (finish r, w)
  advance random_id faults (persist input next) w =
      attempt (persist_ticket uuid_parse uuid_text random_id input) (persist input next) next faults
        w
  advance random_id faults (persist_update input next) w =
      attempt (persist_ticket_update uuid_parse uuid_text input) (persist_update input next) next
        faults w
  advance random_id faults (project created next) w =
      attempt (project_ticket_to_orders uuid_parse uuid_text created) (project created next)
        (λ _. next) faults w

-- One attempt: what a new UUID would be, what goes wrong, and the databases that it finds, since others
-- may have written to them.
abbrev pub Attempt : Type 0
Attempt = ℕ × List Fault × World

module _ (uuid_parse : Text → Option ℕ) (uuid_text : ℕ → Text) where
  -- Attempt after attempt until the workflow ends: what is left of it, and the databases as the last
  -- attempt left them.
  unfoldable pub drive : List Attempt → TicketFlow → World → TicketFlow × World
  drive [] f w = (f, w)
  drive (a ∷ rest) (finish r) w = (finish r, w)
  drive ((random_id, faults, found) ∷ rest) f w =
      let (g, u) = advance uuid_parse uuid_text random_id faults f found in drive rest g u
