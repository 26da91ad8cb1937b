-- ===== src/Tickets/Service/Projectable.antt =====
-- What Tickets lets through, Orders takes as a projection: service.go of Tickets against
-- apps/orders/internal/order/projection.go.
use polyglot_ticketing_v.Base.{
  ℕ, ◌≡◌, true, false, ◌||◌, Option, some, [], arith, Text, text_eq, trim_space, Bool-cases, inl,
  inr,
}
use polyglot_ticketing_v.Base.Int.{ℤ, pos, leb_ℤ, ltb_ℤ, ◌≤ℤ◌}
use polyglot_ticketing_v.Base.Validation.{violation}
use polyglot_ticketing_v.Orders.Model.{Ticket}
use polyglot_ticketing_v.Orders.Projection.{validate_projection}
use polyglot_ticketing_v.Tickets.Service.{validate_mutation, max_price}

-- The three tests of a mutation that is let through.
validate_mutation-parts :
    (title : Text) (price : ℤ) (user_id : Text)
    → validate_mutation title price user_id ≡ []
    → (text_eq (trim_space title) [] ≡ false)
      × ((leb_ℤ price (pos 0) || ltb_ℤ max_price price) ≡ false)
      × (text_eq user_id [] ≡ false)
unfolding validate_mutation violation
validate_mutation-parts title price user_id h = elim (Bool-cases (text_eq (trim_space title) [])) [
  | inl empty ↦ absurd (ground (arith))
  | inr titled ↦ elim (Bool-cases (leb_ℤ price (pos 0) || ltb_ℤ max_price price)) [
    | inl outside ↦ absurd (ground arith)
    | inr inside ↦ elim (Bool-cases (text_eq user_id [])) [
      | inl nobody ↦ absurd (ground arith)
      | inr owned ↦ (titled, inside, owned)
    ]
  ]
]

-- A title and a price that Tickets accepts make a projection that Orders accepts, under any id that
-- uuid.Parse accepts and at any version from 1 on.
pub validate_mutation-validate_projection :
    (uuid_parse : Text → Option ℕ) (id : Text) (user_id : Text) (ticket : Ticket)
    → uuid_parse id ≡ some ticket.id
    → pos 1 ≤ℤ ticket.aggregate_version
    → validate_mutation ticket.title ticket.price user_id ≡ []
    → validate_projection uuid_parse id ticket ≡ true
unfolding validate_projection
validate_mutation-validate_projection uuid_parse id user_id ticket parsed late h =
    let (titled, inside, owned) = validate_mutation-parts ticket.title ticket.price user_id h in
    rw (validate_projection, parsed) (rw titled (ground arith))
