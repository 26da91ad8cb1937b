-- ===== src/Tickets/Tests.antt =====
-- Runs of the Tickets model on small tables.
use polyglot_ticketing_v.Base.{
  ℕ, ◌≡◌, ◌≢◌, refl, none, some, List, [], ◌∷◌, Text, runes, text_eq, ok, arith,
}
use polyglot_ticketing_v.Base.Int.{pos}
use polyglot_ticketing_v.Base.Table.{lookup}
use polyglot_ticketing_v.Base.Db.{other, Fault, healthy, rejected, lost}
use polyglot_ticketing_v.Base.Db.Retry.{calm, attempts}
use polyglot_ticketing_v.Tickets.Model.{UpdateInput, TicketRow, TicketsDb}
use polyglot_ticketing_v.Tickets.Repository.{
  scan_edited, edited_row, find_operation, free_or_own, update_with_idempotency, reserve_for_order,
  release_order_reservation,
}
use polyglot_ticketing_v.Tickets.Repository.Claims.{
  Reserved, Released, reserve_for_order-Reserved, release_order_reservation-Released,
}
use polyglot_ticketing_v.Tickets.Repository.Edits.{with_edit, update_with_idempotency_lem}
use polyglot_ticketing_v.Base.{
  ◌≤◌, ◌↔◌, true, Option, if◌then◌else◌, length, trim_space, trim_left, is_space,
}
use polyglot_ticketing_v.Orders.Model.{Ticket}
use polyglot_ticketing_v.Orders.Projection.{validate_projection}
use polyglot_ticketing_v.Tickets.Service.{validate_idempotency_key, validate_mutation}
use polyglot_ticketing_v.Tickets.Service.Accepted.{IsPrintable, validate_idempotency_key_lem}
use polyglot_ticketing_v.Tickets.Service.Projectable.{validate_mutation-validate_projection}
use polyglot_ticketing_v.Tickets.History.{History, edit, reserve, release, run, run_frozen}
use polyglot_ticketing_v.Tickets.Retries.{update_with_idempotency_retried, claims_retried}
use polyglot_ticketing_v.Base.Table.{write}
use polyglot_ticketing_v.Base.Db.{statement, perform}
use polyglot_ticketing_v.Tickets.Repository.{create, create_at, insert_ticket}
use polyglot_ticketing_v.Tickets.History.{insert, run_call}
use polyglot_ticketing_v.Tickets.History.Versions.{
  IsInRange, no_rows_yet, run-IsInRange, IsLaterRow, run-IsLaterRow,
}

abbrev free_row : TicketRow
free_row = record {
  title = runes "T";
  price = pos 2500;
  user_id = runes "a";
  aggregate_version = 1;
  reserved_by_order_id = none;
}

abbrev held_row : TicketRow
held_row = record free_row { reserved_by_order_id = some 11 }

abbrev free_shop : TicketsDb
free_shop = record { tickets = (7, free_row) ∷ []; operations = [] }

abbrev held_shop : TicketsDb
held_shop = record { tickets = (7, held_row) ∷ []; operations = [] }

abbrev edit_by : Text → UpdateInput
edit_by user = record {
  idempotency_key = runes "k";
  title = runes "U";
  price = pos 3000;
  user_id = user;
}

abbrev a : Text
a = runes "a"

-- The owner tries to edit, another order to claim and to release.
abbrev meddling : History
meddling = (edit 7 (edit_by a), []) ∷ (reserve 7 12, lost (other 0) ∷ []) ∷ (release 7 12, []) ∷ []

other_order : ◌≡◌ {A = ℕ} 7 7 → ◌≢◌ {A = ℕ} 12 11
other_order _ e = omega arith

run_frozen_example : lookup 7 (run meddling held_shop).tickets ≡ some held_row
unfolding lookup
run_frozen_example =
    run_frozen 7 11 held_row refl meddling held_shop (tt, (tt, (other_order, tt))) refl

abbrev two_failures : List (List Fault)
two_failures =
    (healthy ∷ healthy ∷ healthy ∷ healthy ∷ healthy ∷ lost (other 0) ∷ [])
    ∷ (rejected (other 1) ∷ [])
    ∷ []

update_with_idempotency_retried_example :
    update_with_idempotency 7
      (edit_by a)
      (calm (attempts (update_with_idempotency 7 (edit_by a)) two_failures free_shop))
    ≡ update_with_idempotency 7 (edit_by a) (calm free_shop)
update_with_idempotency_retried_example =
    update_with_idempotency_retried 7 (edit_by a) two_failures free_shop

reserve_for_order-Reserved_example :
    let (r, s') = reserve_for_order 7 11 (calm free_shop) in
    Reserved (free_or_own 11) (some 11) (some free_row) r (lookup 7 s'.tables.tickets)
unfolding lookup
reserve_for_order-Reserved_example = reserve_for_order-Reserved 7 11 (calm free_shop)

release_order_reservation-Released_example :
    let (r, s') = release_order_reservation 7 12 (calm held_shop) in
    Released 12 (some held_row) r (lookup 7 s'.tables.tickets)
unfolding lookup
release_order_reservation-Released_example =
    release_order_reservation-Released 7 12 (calm held_shop)

abbrev edited : TicketsDb
edited = with_edit 7 (edit_by a) free_row free_shop

update_with_idempotency_lem_example :
    update_with_idempotency 7 (edit_by a) (calm free_shop)
    ≡ (ok (scan_edited 7 (edited_row (edit_by a) free_row)), calm edited)
unfolding lookup text_eq find_operation
update_with_idempotency_lem_example =
    update_with_idempotency_lem 7 (edit_by a) free_row free_shop refl refl refl

abbrev some_key : Text
some_key = runes "edit 1"

validate_idempotency_key_lem_example :
    (validate_idempotency_key some_key true ≡ [])
    ↔ ((1 ≤ length some_key) × (length some_key ≤ 128) × IsPrintable some_key)
validate_idempotency_key_lem_example = validate_idempotency_key_lem some_key

abbrev parse : Text → Option ℕ
parse id = if text_eq id (runes "7") then some 7 else none

abbrev sold : Ticket
sold = record { id = 7; title = runes " T "; price = pos 2500; aggregate_version = pos 3 }

validate_mutation-validate_projection_example : validate_projection parse (runes "7") sold ≡ true
unfolding text_eq validate_mutation trim_space trim_left is_space
validate_mutation-validate_projection_example =
    validate_mutation-validate_projection parse (runes "7") a sold refl (omega arith) refl

-- The first attempt's answer is lost, and the second is refused.
abbrev lost_then_refused : List (List Fault)
lost_then_refused = (lost (other 0) ∷ []) ∷ (rejected (other 1) ∷ []) ∷ []

claims_retried_example :
    (reserve_for_order 7 11 (calm (attempts (reserve_for_order 7 11) lost_then_refused free_shop))
      ≡ reserve_for_order 7 11 (calm free_shop))
    × (release_order_reservation 7 11
          (calm (attempts (release_order_reservation 7 11) lost_then_refused free_shop))
        ≡ release_order_reservation 7 11 (calm free_shop))
claims_retried_example = claims_retried 7 11 lost_then_refused free_shop

abbrev put_up : History
put_up =
    (
      insert 1 (record {
        id = some 7;
        idempotency_key = none;
        title = runes "T";
        price = pos 2500;
        user_id = runes "a";
      }),
      lost (other 0) ∷ [],
    )
    ∷ []

at-put_up : lookup 7 (run put_up no_rows_yet).tickets ≡ some free_row
unfolding run run_call create create_at insert_ticket statement perform lookup write
at-put_up = refl

run-IsInRange_example : IsInRange free_row
run-IsInRange_example = run-IsInRange put_up 7 free_row at-put_up

abbrev busy : History
busy = (edit 7 (edit_by (runes "a")), []) ∷ (reserve 7 11, lost (other 0) ∷ []) ∷ []

run-IsLaterRow_example :
    (row : TicketRow) × (lookup 7 (run busy free_shop).tickets ≡ some row) × IsLaterRow free_row row
unfolding lookup
run-IsLaterRow_example = run-IsLaterRow busy free_shop 7 free_row refl
