-- ===== src/Orders/Repository/Reads.antt =====
-- What the Orders repository only reads keeps any property of the tables.
use polyglot_ticketing_v.Base.{ℕ, Bool, Option, none, some, Text}
use polyglot_ticketing_v.Base.Db.Keeps.{
  Keeps, Keeps-pure, Keeps-pure_if, Keeps-raise, keeps_bind, Keeps-query,
}
use polyglot_ticketing_v.Orders.Model.{
  Error, order_not_found, database, Order, PaymentOrder, PaymentOutcome, OrdersDb,
}
use polyglot_ticketing_v.Orders.Repository.{
  require, get_by_id, get_by_id_and_user, expire_rest, start_rest, resolve_rest, cancel_rest,
}

module _ {A : Type 0} (I : OrdersDb → Type 0) (e : Error) where
  pub Keeps-require : (o : Option A) → Keeps I (require e o)
  unfolding require
  Keeps-require none = Keeps-raise I e
  Keeps-require (some a) = Keeps-pure I a

module _ (I : OrdersDb → Type 0) where
  -- The operations that only read keep any property of the tables.
  pub get_by_id-Keeps : (order_id : ℕ) → Keeps I (get_by_id order_id)
  unfolding get_by_id
  get_by_id-Keeps order_id =
      keeps_bind I (Keeps-query I database _) (Keeps-require I order_not_found)

  pub get_by_id_and_user-Keeps :
      (order_id : ℕ) (user : Text) → Keeps I (get_by_id_and_user order_id user)
  unfolding get_by_id_and_user
  get_by_id_and_user-Keeps order_id user =
      keeps_bind I (Keeps-query I database _) (Keeps-require I order_not_found)

  pub expire_rest-Keeps :
      (order_id : ℕ) (expired : Option Order) → Keeps I (expire_rest order_id expired)
  unfolding expire_rest
  expire_rest-Keeps order_id none =
      keeps_bind I (get_by_id-Keeps order_id) (λ found. Keeps-pure I _)
  expire_rest-Keeps order_id (some expired) = Keeps-pure I _

  pub start_rest-Keeps :
      (order_id : ℕ) (user : Text) (started : Option PaymentOrder)
      → Keeps I (start_rest order_id user started)
  unfolding start_rest
  start_rest-Keeps order_id user none =
      keeps_bind I (Keeps-query I database _)
        λ row. keeps_bind I (Keeps-require I order_not_found row) λ found. Keeps-pure_if I _ _ _
  start_rest-Keeps order_id user (some started) = Keeps-pure I _

  pub resolve_rest-Keeps :
      (order_id : ℕ) (outcome : PaymentOutcome) (release : Bool) (resolved : Option Order)
      → Keeps I (resolve_rest order_id outcome release resolved)
  unfolding resolve_rest
  resolve_rest-Keeps order_id outcome release none =
      keeps_bind I (get_by_id-Keeps order_id) λ found. Keeps-pure_if I _ _ _
  resolve_rest-Keeps order_id outcome release (some resolved) = Keeps-pure I _

  pub cancel_rest-Keeps :
      (order_id : ℕ) (user : Text) (order : Option Order)
      → Keeps I (cancel_rest order_id user order)
  unfolding cancel_rest
  cancel_rest-Keeps order_id user none =
      keeps_bind I (get_by_id_and_user-Keeps order_id user) λ found. Keeps-pure_if I _ _ _
  cancel_rest-Keeps order_id user (some order) = Keeps-pure I _
