-- ===== src/Creation/TicketCreation/Runs.antt =====
-- A run of a ticket's creation on small tables.
use mathlib.Core.Path.{subst, sym}
use polyglot_ticketing_v.Base.{
  ℕ, ◌≡◌, refl, List, [], ◌∷◌, Option, none, some, Text, runes, text_eq, trim_space, is_space, ok,
}
use polyglot_ticketing_v.Base.Int.{pos}
use polyglot_ticketing_v.Base.Table.{lookup, write}
use polyglot_ticketing_v.Base.Db.{
  other, rejected, lost, statement, query, perform, pure_if, transaction, finish as end_transaction,
}
use polyglot_ticketing_v.World.{World}
use polyglot_ticketing_v.Orders.Projection.{
  checks, applies, upsert, projection_rest, ensure_ticket_projection, validate_projection,
}
use polyglot_ticketing_v.Orders.Server.{project, handle_ensure_ticket_projection}
use polyglot_ticketing_v.Orders.Model as Orders
use polyglot_ticketing_v.Tickets.Repository.ById.{is_unread, update_by_text}
use polyglot_ticketing_v.Tickets.Model.{Ticket, TicketRow, OperationRow}
use polyglot_ticketing_v.Tickets.Repository.{
  require, insert_ticket, create_rest, create_at, create, update_with_idempotency, edit_once,
  pass_guards, apply_edit, edit_where, edit_row, insert_operation, find_operation,
}
use polyglot_ticketing_v.Tickets.Repository.Recorded.{Recorded, Draft}
use polyglot_ticketing_v.Creation.TicketCreation.{
  Input, UpdateTicketInput, update_ticket_handler, persist_ticket_update, bad_fields,
  persist_ticket, project_ticket_to_orders, finish, project as projecting, create_ticket_workflow,
  advance, Attempt, drive,
}
use polyglot_ticketing_v.Creation.TicketCreation.Projected.{
  IsProjected, creation, drive-IsProjected,
}
use polyglot_ticketing_v.Creation.TicketCreation.Gap.{drive_gap}
use polyglot_ticketing_v.Creation.TicketCreation.UpdateWorkflow.{
  UpdateRun, new_run, accept, lock, unlock_if_through, carry_on,
}
use polyglot_ticketing_v.Creation.TicketCreation.UpdateWorkflow.Stages.{IsLevel}
use polyglot_ticketing_v.Creation.TicketCreation.UpdateWorkflow.Steps.{
  IsCertainHold, Turns, accepted, locked, carried, stay, go, IsInStep,
}
use polyglot_ticketing_v.Creation.TicketCreation.UpdateWorkflow.Others.{
  Others, EachElsewhere, calls-Elsewhere,
}
use polyglot_ticketing_v.Creation.TicketCreation.UpdateWorkflow.Calm.{update_completes}
use polyglot_ticketing_v.Orders.Model.{failed}
use polyglot_ticketing_v.Creation.TicketCreation.UpdateWorkflow.Levels.{Turns-IsInStep}
use polyglot_ticketing_v.Creation.TicketCreation.History.{
  idle, Event, begin_creation, go_on_creation, begin_updates, accept_update, lock_update,
  go_on_update, step, run,
}
use polyglot_ticketing_v.Creation.TicketCreation.History.Copies.{run_copied}

abbrev text_of : ℕ → Text
text_of id = id ∷ []

abbrev parsed : Text → Option ℕ
parsed (id ∷ []) = some id
parsed _ = none

abbrev nothing_yet : World
nothing_yet = record {
  orders = record { tickets = []; orders = [] };
  tickets = record { tickets = []; operations = [] };
  payments = record { orders = []; payments = [] };
}

abbrev concert : Input
concert = record { id = text_of 7; title = runes "T"; price = pos 2500; user_id = runes "a" }

abbrev sold : Ticket
sold = record {
  id = 7;
  title = runes "T";
  price = pos 2500;
  user_id = runes "a";
  aggregate_version = 1;
  reserved_by_order_id = none;
}

abbrev stored : World
stored = record nothing_yet {
  tickets = record {
    tickets =
        (
          7,
          record {
            title = runes "T";
            price = pos 2500;
            user_id = runes "a";
            aggregate_version = 1;
            reserved_by_order_id = none;
          },
        )
        ∷ [];
    operations = [];
  };
}

abbrev shown : World
shown = record stored {
  orders = record {
    tickets = (7, record { title = runes "T"; price = pos 2500; aggregate_version = pos 1 }) ∷ [];
    orders = [];
  };
}

-- The first projection does not arrive.
abbrev attempts : List Attempt
attempts = (1, [], nothing_yet) ∷ (1, rejected (other 0) ∷ [], stored) ∷ (1, [], stored) ∷ []

drive-attempts :
    drive parsed text_of attempts (create_ticket_workflow concert) nothing_yet
    ≡ (finish (ok sold), shown)
unfolding drive advance create_ticket_workflow persist_ticket bad_fields create create_at
    insert_ticket create_rest require project_ticket_to_orders handle_ensure_ticket_projection
    project validate_projection ensure_ticket_projection upsert checks applies projection_rest
    statement query perform pure_if lookup write text_eq trim_space is_space
drive-attempts = refl

drive-IsProjected_example : IsProjected sold shown
drive-IsProjected_example =
    drive-IsProjected parsed text_of (λ id. refl) attempts (creation concert) nothing_yet sold shown
      drive-attempts

abbrev drafts : ℕ → Draft
drafts _ = record { title = runes "T"; price = pos 2500; user_id = runes "a" }

abbrev dearer : UpdateTicketInput
dearer = record {
  id = text_of 7;
  idempotency_key = runes "k";
  title = runes "T";
  price = pos 3000;
  user_id = runes "a";
}

-- A ticket is created, and its update is persisted but not projected.
abbrev ahead : List Event
ahead =
    begin_creation 7
    ∷ go_on_creation 0 []
    ∷ go_on_creation 0 []
    ∷ begin_updates
    ∷ accept_update 0 dearer
    ∷ lock_update 0 0
    ∷ go_on_update 0 []
    ∷ []

abbrev first_copy : Orders.TicketRow
first_copy = record { title = runes "T"; price = pos 2500; aggregate_version = pos 1 }

abbrev later_row : TicketRow
later_row = record {
  title = runes "T";
  price = pos 3000;
  user_id = runes "a";
  aggregate_version = 2;
  reserved_by_order_id = none;
}

abbrev ahead_world : World
ahead_world = (run parsed text_of drafts ahead (idle nothing_yet)).world

ahead-copy :
    (lookup 7 ahead_world.orders.tickets ≡ some first_copy)
    × (lookup 7 ahead_world.tickets.tickets ≡ some later_row)
unfolding run step accept lock unlock_if_through carry_on advance create_ticket_workflow
    update_ticket_handler persist_ticket persist_ticket_update update_by_text is_unread bad_fields
    create create_at insert_ticket create_rest require project_ticket_to_orders
    handle_ensure_ticket_projection project validate_projection ensure_ticket_projection upsert
    checks applies projection_rest update_with_idempotency edit_once transaction end_transaction
    pass_guards apply_edit edit_where edit_row insert_operation find_operation statement query
    perform pure_if lookup write text_eq trim_space is_space
ahead-copy = (refl, refl)

run_copied_example :
    (version : ℕ) × (pos 1 ≡ pos version)
    × Recorded 7 version (runes "T") (pos 2500) ahead_world.tickets
run_copied_example =
    run_copied parsed text_of (λ id. refl) drafts nothing_yet.payments ahead 7 first_copy
      ahead-copy.0

-- The update of the ticket to the higher price, where nothing goes wrong.
abbrev raised : Ticket
raised = record sold { price = pos 3000; aggregate_version = 2 }

abbrev later_copy : Orders.TicketRow
later_copy = record first_copy { price = pos 3000; aggregate_version = pos 2 }

abbrev operation : OperationRow
operation = record {
  ticket_id = 7;
  user_id = runes "a";
  idempotency_key = runes "k";
  aggregate_version = 2;
  title = runes "T";
  price = pos 3000;
}

abbrev edited : World
edited = record shown {
  tickets = record { tickets = (7, later_row) ∷ []; operations = operation ∷ [] };
}

-- The second update of a ticket of which the first was not projected.
abbrev third : Ticket
third = record sold { price = pos 3000; aggregate_version = 3 }

-- Between the two attempts the ticket is edited once more, and not projected.
abbrev apart : List Attempt
apart = (1, rejected (other 0) ∷ [], shown) ∷ (2, [], edited) ∷ []

drive_gap_example :
    drive parsed text_of apart (projecting third (finish (ok third))) shown
    ≡ (projecting third (finish (ok third)), edited)
unfolding validate_projection lookup text_eq trim_space is_space
drive_gap_example =
    drive_gap parsed text_of (λ id. refl) third refl (finish (ok third)) apart shown
      ((first_copy, refl, (1, 0, refl, refl)), ((first_copy, refl, (1, 0, refl, refl)), tt))

-- The workflow of updates behind the creation: an update is accepted, and takes the lock.
abbrev created : List Event
created = begin_creation 7 ∷ go_on_creation 0 [] ∷ go_on_creation 0 [] ∷ []

abbrev locked_run : UpdateRun
locked_run = lock 0 (accept dearer new_run)

abbrev persisted : UpdateRun × World
persisted = carry_on parsed text_of [] locked_run shown

created-shown : (run parsed text_of drafts created (idle nothing_yet)).world ≡ shown
unfolding run step advance create_ticket_workflow persist_ticket bad_fields create create_at
    insert_ticket create_rest require project_ticket_to_orders handle_ensure_ticket_projection
    project validate_projection ensure_ticket_projection upsert checks applies projection_rest
    statement query perform pure_if lookup write text_eq trim_space is_space
created-shown = refl

shown-IsLevel : IsLevel 7 shown
unfolding lookup
shown-IsLevel = (
  record {
    title = runes "T";
    price = pos 2500;
    user_id = runes "a";
    aggregate_version = 1;
    reserved_by_order_id = none;
  },
  refl,
  refl,
)

persisted-certain : IsCertainHold parsed text_of drafts 7 locked_run.holder [] shown
unfolding accept lock update_ticket_handler persist_ticket_update update_by_text is_unread
    bad_fields update_with_idempotency edit_once transaction end_transaction pass_guards apply_edit
    edit_where edit_row insert_operation find_operation require statement query perform pure_if
    lookup write text_eq trim_space is_space
persisted-certain = λ e failed. cc

Turns-IsInStep_example : IsInStep 7 persisted.0.holder persisted.1
Turns-IsInStep_example =
    Turns-IsInStep parsed text_of (λ id. refl) drafts 7 nothing_yet.payments created
      (subst (IsLevel 7) (sym created-shown) shown-IsLevel)
      (record { updates = persisted.0; world = persisted.1 })
      (subst
        (λ w.
          Turns parsed text_of drafts 7 (record { updates = new_run; world = w })
            (record { updates = persisted.0; world = persisted.1 }))
        (sym created-shown)
        (go _ _ _ (accepted new_run shown dearer refl) (
          go _ _ _ (locked (accept dearer new_run) shown 0)
            (go _ _ _ (carried locked_run shown [] persisted-certain) (stay _)))))

abbrev meanwhile : Others
meanwhile = record {
  id = 7;
  order = 11;
  now = 950000;
  input = record { expires_at = 900500; order_id = some 11; ticket_id = 7; user_id = runes "b" };
  user = runes "b";
  outcome = failed;
  faults = lost (other 0) ∷ [];
}

calls-Elsewhere_example :
    EachElsewhere parsed text_of drafts 7
      (run parsed text_of drafts created (idle nothing_yet)).world
      meanwhile
calls-Elsewhere_example =
    calls-Elsewhere parsed text_of (λ id. refl) drafts 7 nothing_yet.payments created meanwhile

abbrev level_again : World
level_again = record edited { orders = record { tickets = (7, later_copy) ∷ []; orders = [] } }

update_completes_example :
    drive parsed text_of
      ((0, [], shown) ∷ (0, [], edited) ∷ [])
      (update_ticket_handler dearer)
      shown
    ≡ (finish (ok raised), level_again)
unfolding lookup write is_unread bad_fields find_operation text_eq trim_space is_space
update_completes_example =
    update_completes parsed text_of (λ id. refl) 7 dearer _ shown refl refl refl refl refl refl refl
      refl refl refl
