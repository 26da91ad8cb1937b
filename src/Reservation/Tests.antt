-- ===== src/Reservation/Tests.antt =====
-- Runs of the workflows of Orders on small tables.
use polyglot_ticketing_v.Base.{
  ℕ, ◌≡◌, ◌⊎◌, refl, List, [], ◌∷◌, Option, none, some, Text, runes, text_eq, ok, true, false,
}
use mathlib.Core.Option.{none-ne-some}
use polyglot_ticketing_v.Base.Int.{pos}
use polyglot_ticketing_v.Base.Lists.{get_elem?}
use polyglot_ticketing_v.Base.Table.{lookup, write, select_first}
use polyglot_ticketing_v.Base.Db.{
  other, healthy, lost, statement, query, transaction, finish as end_transaction, perform, pure_if,
}
use polyglot_ticketing_v.Base.Temporal.{ticket_already_reserved}
use polyglot_ticketing_v.World.{World}
use polyglot_ticketing_v.Orders.Model.{
  Error, created, Order, OrderRow, TicketReservationInput, ReservationResult,
}
use polyglot_ticketing_v.Orders.Model
use polyglot_ticketing_v.Orders.Repository.{
  reserve_ticket, require, find_blocking_order, blocks, blocking_before, reserve_with, insert_order,
  insert_row,
}
use polyglot_ticketing_v.Orders.Repository.Invariant.{IsValid}
use polyglot_ticketing_v.Tickets.Model.{TicketRow}
use polyglot_ticketing_v.Tickets.Repository.{
  reserve_for_order, set_reservation, free_or_own, affected_or,
}
use polyglot_ticketing_v.Tickets.Service.{validate_reservation, reserve_ticket_for_order}
use polyglot_ticketing_v.Tickets.Server.{handle_reserve}
use polyglot_ticketing_v.Reservation.Activities
use polyglot_ticketing_v.Reservation.Later.{IsCanceled}
use polyglot_ticketing_v.Reservation.Promise.{Has}
use polyglot_ticketing_v.Reservation.Workflow.{
  finish, reservation_made, order_canceled, create_order_workflow, expire_order_workflow,
}
use polyglot_ticketing_v.Reservation.System.{advance}
use polyglot_ticketing_v.Reservation.System.Frees.{
  Freed, Attempt, drive, cancellation, flow_of, drive-Freed,
}
use polyglot_ticketing_v.Reservation.Activities.{claim_ticket}
use polyglot_ticketing_v.Reservation.Coordinator.Refused.{Refused, claim_ticket-Refused}
use polyglot_ticketing_v.Base.{Result}
use polyglot_ticketing_v.Base.Db.{Session}
use polyglot_ticketing_v.Base.Db.Retry.{calm}
use polyglot_ticketing_v.Base.Temporal.{Failure}
use polyglot_ticketing_v.Reservation.Workflow.{cancel_order_workflow}
use polyglot_ticketing_v.Orders.Repository.{
  cancel_by_id_and_user, update_order, update_status, cancel_rest, get_by_id_and_user,
}
use polyglot_ticketing_v.Tickets.Server.{handle_release}
use polyglot_ticketing_v.Tickets.Service.{release_ticket_reservation}
use polyglot_ticketing_v.Tickets.Repository.{release_order_reservation, own}
use polyglot_ticketing_v.Reservation.History.{
  System, idle, Event, begin_create, begin_cancel, progress, edit_ticket, step, run,
}
use polyglot_ticketing_v.Reservation.History.Claimed.{
  run_claim_kept, run_reservation_made, run_booked_once,
}
use polyglot_ticketing_v.Orders.Repository.Reservation.{with_order}
use polyglot_ticketing_v.Orders.Repository.Cancel.{with_canceled}
use polyglot_ticketing_v.Tickets.Repository.Free.{with_claim}
use polyglot_ticketing_v.Reservation.Activities.{reserve_failure}
use polyglot_ticketing_v.Reservation.Coordinator.{reservation_workflow_error}
use polyglot_ticketing_v.Reservation.Coordinator.Failures.{
  reserving, failure_of, failure_of-returns,
}
use polyglot_ticketing_v.Reservation.History.Calm.{
  on, run_creation_completes, run_cancellation_completes,
}

abbrev text_of : ℕ → Text
text_of id = id ∷ []

abbrev parsed : Text → Option ℕ
parsed (id ∷ []) = some id
parsed _ = none

abbrev parsed_law : (id : ℕ) → parsed (text_of id) ≡ some id
parsed_law id = refl

abbrev alice : Text
alice = runes "a"

abbrev free_row : TicketRow
free_row = record {
  title = runes "T";
  price = pos 2500;
  user_id = runes "s";
  aggregate_version = 1;
  reserved_by_order_id = none;
}

abbrev held_row : TicketRow
held_row = record free_row { reserved_by_order_id = some 11 }

abbrev projected : Model.TicketRow
projected = record { title = runes "T"; price = pos 2500; aggregate_version = pos 1 }

abbrev fresh : World
fresh = record {
  orders = record { tickets = (7, projected) ∷ []; orders = [] };
  tickets = record { tickets = (7, free_row) ∷ []; operations = [] };
  payments = record { orders = []; payments = [] };
}

abbrev order_row : OrderRow
order_row = record { expires_at = 900000; user_id = alice; ticket_id = 7; status = created }

abbrev held : World
held = record fresh {
  orders = record { tickets = (7, projected) ∷ []; orders = (11, order_row) ∷ [] };
  tickets = record { tickets = (7, held_row) ∷ []; operations = [] };
}

abbrev wanted : ℕ → TicketReservationInput
wanted id = record { expires_at = 900500; order_id = some id; ticket_id = 7; user_id = alice }

abbrev her_order : Order
her_order = record {
  expires_at = 900000;
  id = 11;
  status = created;
  ticket_id = 7;
  user_id = alice;
}

-- The first claim's answer is lost; then she asks for the ticket once more.
abbrev twice : List Event
twice =
    begin_create (wanted 11)
    ∷ progress 0 100 1 []
    ∷ progress 0 100 1 (healthy ∷ lost (other 0) ∷ [])
    ∷ progress 0 100 1 []
    ∷ progress 0 100 1 []
    ∷ begin_create (wanted 12)
    ∷ progress 2 100 1 []
    ∷ progress 2 100 1 []
    ∷ []

abbrev served : System
served = record {
  running =
      finish (ok (reservation_made (record { created = true; order = her_order })))
      ∷ expire_order_workflow (record { expires_at = 900000; order_id = 11; ticket_id = 7 })
      ∷ finish (ok (reservation_made (record { created = false; order = her_order })))
      ∷ [];
  world = held;
}

run-twice : run parsed text_of twice (idle fresh) ≡ served
unfolding run step advance create_order_workflow Activities.reserve_order Activities.claim_ticket
    reserve_ticket require find_blocking_order blocks blocking_before select_first reserve_with
    insert_order insert_row handle_reserve reserve_ticket_for_order validate_reservation
    reserve_for_order set_reservation free_or_own affected_or transaction statement query
    end_transaction perform pure_if lookup write text_eq
run-twice = refl

first-twice :
    get_elem? (run parsed text_of twice (idle fresh)).running 0
    ≡ some (finish (ok (reservation_made (record { created = true; order = her_order }))))
first-twice = rw run-twice refl

third-twice :
    get_elem? (run parsed text_of twice (idle fresh)).running 2
    ≡ some (finish (ok (reservation_made (record { created = false; order = her_order }))))
third-twice = rw run-twice refl

claimed-twice :
    lookup 7 (run parsed text_of twice (idle fresh)).world.tickets.tickets ≡ some held_row
unfolding lookup
claimed-twice = rw run-twice refl

run_booked_once_example :
    (her_order.id ≡ her_order.id)
    ⊎ (IsCanceled 11 (run parsed text_of twice (idle fresh)).world.orders
        ⊎ IsCanceled 11 (run parsed text_of twice (idle fresh)).world.orders)
run_booked_once_example =
    run_booked_once parsed text_of parsed_law twice fresh 0 2
      (record { created = true; order = her_order }) (record { created = false; order = her_order })
      first-twice third-twice refl

run_reservation_made_example : Has her_order (run parsed text_of twice (idle fresh)).world
run_reservation_made_example =
    run_reservation_made parsed text_of parsed_law twice fresh 2
      (record { created = false; order = her_order }) third-twice

-- The seller tries to edit the ticket, and its buyer cancels.
abbrev afterwards : List Event
afterwards =
    edit_ticket 7
      (record {
        idempotency_key = runes "k";
        title = runes "U";
        price = pos 3000;
        user_id = runes "s";
      })
      []
    ∷ begin_cancel (record { order_id = 11; user_id = alice })
    ∷ progress 3 100 1 []
    ∷ progress 3 100 1 []
    ∷ []

run_claim_kept_example :
    let after = run parsed text_of afterwards (run parsed text_of twice (idle fresh)) in
    (lookup 7 after.world.tickets.tickets ≡ some held_row) ⊎ IsCanceled 11 after.world.orders
run_claim_kept_example =
    run_claim_kept parsed text_of parsed_law twice afterwards fresh 7 11 held_row claimed-twice refl

fresh-IsValid : IsValid fresh.orders
unfolding lookup
fresh-IsValid = record {
  tickets_keyed = (refl, tt);
  orders_keyed = tt;
  referenced = λ id row e. absurd (none-ne-some row e);
  exclusive = λ i j v w e. absurd (none-ne-some v e);
}

run_creation_completes_example :
    run parsed text_of (begin_create (wanted 11) ∷ on 100 1 ∷ on 100 1 ∷ on 100 1 ∷ []) (idle fresh)
    ≡ record {
      running =
          finish (ok (reservation_made (record { created = true; order = her_order })))
          ∷ expire_order_workflow (record { expires_at = 900000; order_id = 11; ticket_id = 7 })
          ∷ [];
      world = record fresh {
        orders = with_order 11 (wanted 11) fresh.orders;
        tickets = with_claim 7 free_row (some 11) fresh.tickets;
      };
    }
unfolding lookup
run_creation_completes_example =
    run_creation_completes parsed text_of parsed_law 100 1 fresh 11 (wanted 11) projected free_row
      fresh-IsValid refl (λ id row e. absurd (none-ne-some row e)) refl refl refl refl

run_cancellation_completes_example :
    run parsed text_of
      (begin_cancel (record { order_id = 11; user_id = alice }) ∷ on 100 1 ∷ on 100 1 ∷ [])
      (idle held)
    ≡ record {
      running = finish (ok (order_canceled (record her_order { status = Model.canceled }))) ∷ [];
      world = record held {
        orders = with_canceled 11 order_row held.orders;
        tickets = with_claim 7 held_row none held.tickets;
      };
    }
unfolding lookup
run_cancellation_completes_example =
    run_cancellation_completes parsed text_of parsed_law 100 1 held 11 order_row held_row refl refl
      refl refl

failure_of-returns_example :
    reservation_workflow_error (failure_of reserving Model.reserved) ≡ Model.reserved
unfolding reserve_failure
failure_of-returns_example =
    failure_of-returns reserving Model.reserved ticket_already_reserved refl

-- Her order is canceled; the release's answer is lost, and the ticket is released once more.
abbrev canceled_order : Order
canceled_order = record her_order { status = Model.canceled }

abbrev canceled_world : World
canceled_world = record held { orders = with_canceled 11 order_row held.orders }

abbrev released : World
released = record canceled_world { tickets = fresh.tickets }

abbrev canceling_attempts : List Attempt
canceling_attempts =
    (100, 1, [], held)
    ∷ (100, 1, healthy ∷ lost (other 0) ∷ [], canceled_world)
    ∷ (100, 1, [], released)
    ∷ []

drive-canceling :
    drive parsed text_of canceling_attempts
      (flow_of (cancellation (record { order_id = 11; user_id = alice })))
      held
    ≡ (finish (ok (order_canceled canceled_order)), released)
unfolding drive advance cancel_order_workflow Activities.cancel_order Activities.release_ticket
    cancel_by_id_and_user update_order update_status cancel_rest get_by_id_and_user handle_release
    release_ticket_reservation validate_reservation release_order_reservation set_reservation own
    affected_or require statement query perform pure_if lookup write text_eq
drive-canceling = refl

drive-Freed_example : Freed (ok (order_canceled canceled_order)) released
drive-Freed_example =
    drive-Freed parsed text_of parsed_law canceling_attempts
      (cancellation (record { order_id = 11; user_id = alice })) held
      (ok (order_canceled canceled_order)) released drive-canceling

-- Another order's claim of the ticket that she has.
abbrev late_order : Order
late_order = record her_order { id = 12 }

abbrev late_claim : Result Failure (Unit {0}) × Session World
late_claim = claim_ticket parsed text_of late_order (calm held)

claim_ticket-Refused_example : Refused late_order held late_claim.0 late_claim.1.tables
claim_ticket-Refused_example = claim_ticket-Refused parsed text_of parsed_law late_order (calm held)
