-- ===== src/Orders/Repository/Cancel.antt =====
-- `CancelByIDAndUser` where nothing goes wrong and the order may be canceled.
use polyglot_ticketing_v.Base.{ℕ, ◌≡◌, some, ok, text_eq_refl}
use polyglot_ticketing_v.Base.Table.{lookup, write}
use polyglot_ticketing_v.Base.Db.{statement}
use polyglot_ticketing_v.Base.Db.Retry.{calm}
use polyglot_ticketing_v.Orders.Model.{created, canceled, OrderRow, OrdersDb}
use polyglot_ticketing_v.Orders.Repository.{
  scan_order, update_status, update_order, cancel_rest, cancel_by_id_and_user,
}

-- The tables with the order canceled.
abbrev pub with_canceled : ℕ → OrderRow → OrdersDb → OrdersDb
with_canceled id row db = record db {
  orders = write id (record row { status = canceled }) db.orders;
}

pub cancel_by_id_and_user-created :
    (id : ℕ) (row : OrderRow) (db : OrdersDb)
    → lookup id db.orders ≡ some row
    → row.status ≡ created
    → cancel_by_id_and_user id row.user_id (calm db)
      ≡ (ok (scan_order id (record row { status = canceled })), calm (with_canceled id row db))
unfolding cancel_by_id_and_user update_order update_status cancel_rest statement
cancel_by_id_and_user-created id row db there fresh =
    rw there (rw fresh (rw (text_eq_refl row.user_id)))
