-- ===== src/Orders/Retries.antt =====
-- Attempts at an Orders operation that failed, each in its own way, before one that goes well: what
-- the retries of an activity come to.
use polyglot_ticketing_v.Base.{ℕ, ◌≡◌, List, Text}
use polyglot_ticketing_v.Base.Db.{Fault}
use polyglot_ticketing_v.Base.Db.Retry.{calm, attempts, attempts-RetrySafe}
use polyglot_ticketing_v.Orders.Model.{PaymentOutcome, OrdersDb}
use polyglot_ticketing_v.Orders.Repository.{
  expire_created_order, start_payment, resolve_payment, cancel_by_id_and_user,
}
use polyglot_ticketing_v.Orders.Repository.Retry.{
  cancel_by_id_and_user-RetrySafe, expire_created_order-RetrySafe, resolve_payment-RetrySafe,
}
use polyglot_ticketing_v.Orders.Repository.Checkout.{start_payment-RetrySafe}

-- After any attempts at one change of an order, which is the start of its payment, the resolution of
-- its payment by one outcome, its cancellation or its expiry at one NOW(), whatever went wrong in each,
-- one that goes well has the answer and the tables of a single one that goes well.
pub changes_retried :
    (failures : List (List Fault)) (db : OrdersDb) (now id : ℕ) (user : Text)
    (outcome : PaymentOutcome)
    → (start_payment id user (calm (attempts (start_payment id user) failures db))
        ≡ start_payment id user (calm db))
      × (resolve_payment id outcome (calm (attempts (resolve_payment id outcome) failures db))
          ≡ resolve_payment id outcome (calm db))
      × (cancel_by_id_and_user id user (calm (attempts (cancel_by_id_and_user id user) failures db))
          ≡ cancel_by_id_and_user id user (calm db))
      × (expire_created_order now id (calm (attempts (expire_created_order now id) failures db))
          ≡ expire_created_order now id (calm db))
changes_retried failures db now id user outcome = (
  attempts-RetrySafe (start_payment id user) (start_payment-RetrySafe id user) failures db,
  attempts-RetrySafe (resolve_payment id outcome) (resolve_payment-RetrySafe id outcome) failures
      db,
  attempts-RetrySafe (cancel_by_id_and_user id user) (cancel_by_id_and_user-RetrySafe id user)
      failures db,
  attempts-RetrySafe (expire_created_order now id) (expire_created_order-RetrySafe now id) failures
      db,
)
