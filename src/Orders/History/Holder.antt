-- ===== src/Orders/History/Holder.antt =====
-- The tables of Orders as the one order that holds each ticket: an abstract machine that every call
-- implements.
use polyglot_ticketing_v.Base.{
  ℕ, ◌≡◌, refl, ◌∙◌, false, Option, none, some, Option-cases, Bool-cases, inl, inr,
}
use polyglot_ticketing_v.Base.Table.{lookup, select_first, select_first_sound}
use polyglot_ticketing_v.Base.Db.{Session}
use polyglot_ticketing_v.Orders.Model.{Status, canceled, OrderRow, OrdersDb}
use polyglot_ticketing_v.Orders.Repository.{blocks, blocking_before}
use polyglot_ticketing_v.Orders.Repository.Invariant.{is_blocking, IsValid}
use polyglot_ticketing_v.Orders.Repository.Evolves.{Evolves}
use polyglot_ticketing_v.Orders.Repository.Reservation.{Holds, select-held, blocks-parts}
use polyglot_ticketing_v.Orders.History.{Call, run_call, run_call-IsValid, run_call-Evolves}

abbrev pub id_of : Option (ℕ × OrderRow) → Option ℕ
id_of none = none
id_of (some (id, row)) = some id

-- The order that holds a ticket, as the search for a blocking order finds it.
unfoldable pub holder : ℕ → OrdersDb → Option ℕ
holder ticket db = id_of (select_first (blocks ticket) blocking_before db.orders)

-- The order is there and canceled.
abbrev pub HasCanceled : OrdersDb → ℕ → Type 0
HasCanceled db id = (row : OrderRow) × (lookup id db.orders ≡ some row) × (row.status ≡ canceled)

-- A step of the abstract machine on one ticket: its holder stays, a free ticket is taken, or the
-- holder is canceled.
pub data Handover (Gone : ℕ → Type 0) : Option ℕ → Option ℕ → Type 0 where
  stays : (held : Option ℕ) → Handover Gone held held
  taken : (id : ℕ) → Handover Gone none (some id)
  given_up : (id : ℕ) (next : Option ℕ) → Gone id → Handover Gone (some id) next

module _ {Gone : ℕ → Type 0} where
  from_none : (next : Option ℕ) → Handover Gone none next
  from_none none = stays none
  from_none (some id) = taken id

is_blocking-false : (status : Status) → is_blocking status ≡ false → status ≡ canceled
is_blocking-false canceled h = refl
is_blocking-false _ h = cc

module _ (ticket : ℕ) (before after : OrdersDb) (valid : IsValid before) (valid' : IsValid after)
    (on : Evolves before after) where
  from_held :
      (id : ℕ) (row : OrderRow)
      → select_first (blocks ticket) blocking_before before.orders ≡ some (id, row)
      → Handover (HasCanceled after) (some id) (holder ticket after)
  unfolding holder
  from_held id row found =
      let (passes, there) =
        select_first_sound (blocks ticket) blocking_before before.orders id row valid.orders_keyed
          found in
      let (same, _) = blocks-parts ticket id row passes in
      let (row', there', continues) = on.continues id row there in
      elim (Bool-cases (is_blocking row'.status)) [
        | inl still ↦
            let held : Holds ticket id row' after = record {
              present = there';
              on_ticket = continues.same_ticket ∙ same;
              blocking = still;
            } in
            rw (select-held ticket id row' after valid' held) (stays (some id))
        | inr over ↦ given_up id _ (row', there', is_blocking-false row'.status over)
      ]

  holder-Handover : Handover (HasCanceled after) (holder ticket before) (holder ticket after)
  unfolding holder
  holder-Handover =
      elim (Option-cases (select_first (blocks ticket) blocking_before before.orders)) [
        | inl nothing ↦ rw nothing (from_none (holder ticket after))
        | inr ((id, row), found) ↦ rw found (from_held id row found)
      ]

-- In valid tables, every call, whatever goes wrong in it, is on every ticket one step of the abstract
-- machine: the order that holds the ticket stays its holder, a ticket that no order holds is taken or
-- stays free, or the holder is canceled behind the call.
pub run_call-Handover :
    (call : Call) (s : Session OrdersDb) (ticket : ℕ)
    → IsValid s.tables
    → Handover
        (HasCanceled (run_call call s))
        (holder ticket s.tables)
        (holder ticket (run_call call s))
run_call-Handover call s ticket valid =
    holder-Handover ticket s.tables (run_call call s) valid (run_call-IsValid call s valid)
      (run_call-Evolves call s)
