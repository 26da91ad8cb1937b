-- ===== src/Orders/Tests.antt =====
-- Runs of the Orders model on small tables.
use mathlib.Core.Option.{none-ne-some}
use polyglot_ticketing_v.Base.{
  ℕ, ◌≡◌, refl, sym, true, false, some, List, [], ◌∷◌, Text, runes, text_eq, ok, err,
}
use polyglot_ticketing_v.Base.Int.{pos}
use polyglot_ticketing_v.Base.Table.{lookup, write, select_first}
use polyglot_ticketing_v.Base.Db.{
  other, Fault, healthy, rejected, lost, perform, statement, query, transaction, finish, pure_if,
}
use polyglot_ticketing_v.Base.Db.Retry.{calm, attempts}
use polyglot_ticketing_v.Orders.Model.{
  reserved, created, awaiting_payment, Ticket, failed, TicketReservationInput, OrderRow, OrdersDb,
}
use polyglot_ticketing_v.Orders.Repository.{
  scan_order, require, find_blocking_order, blocks, blocking_before, reserve_with, insert_order,
  insert_row, reserve_ticket, expire_created_order, start_payment, resolve_payment,
  cancel_by_id_and_user,
}
use polyglot_ticketing_v.Orders.Repository.Invariant.{IsValid}
use polyglot_ticketing_v.Orders.Repository.Evolves.{Continues}
use polyglot_ticketing_v.Orders.Repository.Reservation.{
  Holds, IsUnheld, reserve_ticket-held, reserve_ticket-free, reserve_ticket_retried,
}
use polyglot_ticketing_v.Orders.Projection.{
  ticket_row, upsert, checks, applies, projection_rest, ensure_ticket_projection,
}
use polyglot_ticketing_v.Orders.Projection.Versions.{ensure_ticket_projection-Projected, Projected}
use polyglot_ticketing_v.Orders.History.{
  History, reserve, start, cancel, project, run, run_call, no_rows_yet, run-IsValid,
  no_rows_yet-IsValid, run_exclusive, run-Continues,
}
use polyglot_ticketing_v.Orders.Retries.{changes_retried}
use polyglot_ticketing_v.Base.{◌++◌}
use polyglot_ticketing_v.Base.Db.Laws.{Ensures}
use polyglot_ticketing_v.Base.ErrorCode.{
  invalid_price, enum_prefix, enum_name, code_string, code_string-enum_prefix,
}
use polyglot_ticketing_v.Orders.Repository.Answers.{
  Given, IsCanceledOrder, cancel_by_id_and_user_sound, IsExpiry, expire_created_order_sound,
  IsResolution, resolve_payment_sound,
}
use polyglot_ticketing_v.Base.Db.{Session}
use polyglot_ticketing_v.Orders.History.Holder.{holder, HasCanceled, Handover, run_call-Handover}

abbrev alice : Text
alice = runes "a"

abbrev bob : Text
bob = runes "b"

abbrev concert : Ticket
concert = record { id = 7; title = runes "Concert"; price = pos 2500; aggregate_version = pos 1 }

abbrev wanted : Text → ℕ → TicketReservationInput
wanted user id = record { expires_at = 900500; order_id = some id; ticket_id = 7; user_id = user }

abbrev order_row : OrderRow
order_row = record { expires_at = 900000; user_id = alice; ticket_id = 7; status = created }

-- The first commit's answer is lost.
abbrev reserved_once : History
reserved_once =
    (project concert, [])
    ∷ (reserve 1 (wanted alice 11), healthy ∷ healthy ∷ healthy ∷ healthy ∷ lost (other 0) ∷ [])
    ∷ []

abbrev shop : OrdersDb
shop = record { tickets = (7, ticket_row concert) ∷ []; orders = [] }

abbrev taken : OrdersDb
taken = record { tickets = (7, ticket_row concert) ∷ []; orders = (11, order_row) ∷ [] }

run-reserved_once : run reserved_once no_rows_yet ≡ taken
unfolding run run_call ensure_ticket_projection upsert checks applies projection_rest reserve_ticket
    require find_blocking_order blocks blocking_before select_first reserve_with insert_order
    insert_row transaction statement query finish perform pure_if lookup write
run-reserved_once = refl

at-reserved_once : lookup 11 (run reserved_once no_rows_yet).orders ≡ some order_row
unfolding lookup
at-reserved_once = rw run-reserved_once refl

run_exclusive_example : ◌≡◌ {A = ℕ} 11 11
run_exclusive_example =
    run_exclusive reserved_once 11 11 order_row order_row at-reserved_once at-reserved_once refl
      refl refl

abbrev canceled_later : History
canceled_later = (cancel 11 alice, lost (other 0) ∷ []) ∷ (start 11 alice, []) ∷ []

run-Continues_example :
    (row : OrderRow) × (lookup 11 (run canceled_later taken).orders ≡ some row)
    × Continues order_row row
unfolding lookup
run-Continues_example = run-Continues canceled_later taken 11 order_row refl

-- No orders, or one: all the parts of the invariant are at hand.
shop-IsValid : IsValid shop
unfolding lookup
shop-IsValid = record {
  tickets_keyed = (refl, tt);
  orders_keyed = tt;
  referenced = λ id row e. absurd (none-ne-some row e);
  exclusive = λ i j v w e. absurd (none-ne-some v e);
}

taken-IsValid : IsValid taken
taken-IsValid =
    rw (sym run-reserved_once) (run-IsValid reserved_once no_rows_yet no_rows_yet-IsValid)

shop-IsUnheld : IsUnheld 7 shop
unfolding lookup
shop-IsUnheld id row e = absurd (none-ne-some row e)

reserve_ticket-free_example :
    reserve_ticket 1 (wanted alice 11) (calm shop)
    ≡ (ok (record { created = true; order = scan_order 11 order_row }), calm taken)
unfolding lookup write
reserve_ticket-free_example =
    reserve_ticket-free 11 (wanted alice 11) (ticket_row concert) shop shop-IsValid refl
      shop-IsUnheld refl refl 1

reserve_ticket_retried_example :
    reserve_ticket 1
      (wanted alice 11)
      (reserve_ticket 1 (wanted alice 11) (record {
        tables = shop;
        faults = healthy ∷ healthy ∷ healthy ∷ healthy ∷ lost (other 5) ∷ [];
      })).1
    ≡ (ok (record { created = false; order = scan_order 11 order_row }), calm taken)
unfolding lookup write
reserve_ticket_retried_example =
    reserve_ticket_retried 11 (wanted alice 11) (ticket_row concert) shop shop-IsValid refl
      shop-IsUnheld refl refl 1 (other 5)

held : Holds 7 11 order_row taken
unfolding lookup
held = record { present = refl; on_ticket = refl; blocking = refl }

reserve_ticket-held_example :
    reserve_ticket 2 (wanted bob 12) (calm taken) ≡ (err reserved, calm taken)
unfolding lookup text_eq
reserve_ticket-held_example =
    reserve_ticket-held 2 11 (wanted bob 12) order_row (ticket_row concert) taken taken-IsValid refl
      held

abbrev retitled : Ticket
retitled = record concert { title = runes "C"; aggregate_version = pos 2 }

ensure_ticket_projection-Projected_example :
    let (r, s') = ensure_ticket_projection retitled (calm shop) in
    Projected retitled (some (ticket_row concert)) r (lookup 7 s'.tables.tickets)
unfolding lookup
ensure_ticket_projection-Projected_example = ensure_ticket_projection-Projected retitled (calm shop)

-- An attempt whose update is lost, and one whose update goes well and whose read is refused.
abbrev two_failures : List (List Fault)
two_failures = (lost (other 0) ∷ []) ∷ (healthy ∷ rejected (other 1) ∷ []) ∷ []

abbrev paying : OrdersDb
paying = record taken { orders = (11, record order_row { status = awaiting_payment }) ∷ [] }

changes_retried_example :
    (start_payment 11 alice (calm (attempts (start_payment 11 alice) two_failures paying))
      ≡ start_payment 11 alice (calm paying))
    × (resolve_payment 11 failed (calm (attempts (resolve_payment 11 failed) two_failures paying))
        ≡ resolve_payment 11 failed (calm paying))
    × (cancel_by_id_and_user 11 alice
          (calm (attempts (cancel_by_id_and_user 11 alice) two_failures paying))
        ≡ cancel_by_id_and_user 11 alice (calm paying))
    × (expire_created_order 950000 11
          (calm (attempts (expire_created_order 950000 11) two_failures paying))
        ≡ expire_created_order 950000 11 (calm paying))
changes_retried_example = changes_retried two_failures paying 950000 11 alice failed

cancel_by_id_and_user_sound_example :
    Ensures (λ _. Unit {0}) (cancel_by_id_and_user 11 alice) (Given IsCanceledOrder)
cancel_by_id_and_user_sound_example = cancel_by_id_and_user_sound 11 alice

expire_created_order_sound_example :
    Ensures (λ _. Unit {0}) (expire_created_order 950000 11) (Given IsExpiry)
expire_created_order_sound_example = expire_created_order_sound 950000 11

resolve_payment_sound_example :
    Ensures (λ _. Unit {0}) (resolve_payment 11 failed) (Given (IsResolution failed))
resolve_payment_sound_example = resolve_payment_sound 11 failed

code_string-enum_prefix_example : enum_prefix ++ code_string invalid_price ≡ enum_name invalid_price
code_string-enum_prefix_example = code_string-enum_prefix invalid_price tt

-- A cancellation whose answer is lost.
abbrev canceling : Session OrdersDb
canceling = record { tables = taken; faults = lost (other 0) ∷ [] }

run_call-Handover_example :
    Handover
      (HasCanceled (run_call (cancel 11 alice) canceling))
      (holder 7 taken)
      (holder 7 (run_call (cancel 11 alice) canceling))
run_call-Handover_example = run_call-Handover (cancel 11 alice) canceling 7 taken-IsValid
