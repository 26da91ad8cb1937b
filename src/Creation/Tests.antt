-- ===== src/Creation/Tests.antt =====
-- A checkout that is refused, on small tables.
use polyglot_ticketing_v.Base.{ℕ, refl, [], ◌∷◌, Option, none, some, Text, runes, Result}
use polyglot_ticketing_v.Base.Int.{pos}
use polyglot_ticketing_v.Base.Db.{Session}
use polyglot_ticketing_v.Base.Temporal.{Failure}
use polyglot_ticketing_v.World.{World}
use polyglot_ticketing_v.Orders.Model.{complete}
use polyglot_ticketing_v.Payments.Model.{Order, CreateInput}
use polyglot_ticketing_v.Creation.PaymentCreation.{start_order_payment}
use polyglot_ticketing_v.Creation.PaymentCreation.Refused.{Refused, start_order_payment-Refused}

abbrev text_of : ℕ → Text
text_of id = id ∷ []

abbrev parsed : Text → Option ℕ
parsed (id ∷ []) = some id
parsed _ = none

-- Her order is paid already.
abbrev paid : World
paid = record {
  orders = record {
    tickets = (7, record { title = runes "T"; price = pos 2500; aggregate_version = pos 1 }) ∷ [];
    orders =
        (11, record { expires_at = 900000; user_id = runes "a"; ticket_id = 7; status = complete })
        ∷ [];
  };
  tickets = record { tickets = []; operations = [] };
  payments = record { orders = []; payments = [] };
}

abbrev hers : CreateInput
hers = record { order_id = 11; user_id = runes "a" }

abbrev checkout : Result Failure Order × Session World
checkout = start_order_payment parsed text_of hers (record { tables = paid; faults = [] })

start_order_payment-Refused_example : Refused hers paid.orders checkout.0 checkout.1.tables.orders
start_order_payment-Refused_example =
    start_order_payment-Refused parsed text_of (λ id. refl) hers
      (record { tables = paid; faults = [] })
