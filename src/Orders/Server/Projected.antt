-- ===== src/Orders/Server/Projected.antt =====
-- The handler of a projection, on an id that parses.
use mathlib.Core.Path.{subst}
use polyglot_ticketing_v.Base.{
  ℕ, ◌≡◌, Option, some, Text, Result, ok, err, Bool-cases, inl, inr, arith,
}
use polyglot_ticketing_v.Base.Table.{lookup}
use polyglot_ticketing_v.Base.Db.{Session}
use polyglot_ticketing_v.Base.Db.Keeps.{Keeps}
use polyglot_ticketing_v.Base.Grpc.{respond}
use polyglot_ticketing_v.Base.Validation.{answered}
use polyglot_ticketing_v.Orders.Model.{Error, Ticket, TicketRow, OrdersDb}
use polyglot_ticketing_v.Orders.Projection.{
  ticket_row, validate_projection, ensure_ticket_projection,
}
use polyglot_ticketing_v.Orders.Projection.Versions.{Projected, ensure_ticket_projection-Projected}
use polyglot_ticketing_v.Orders.Wire.{ProjectionRequest}
use polyglot_ticketing_v.Orders.Server.{
  value, projection_status, project, handle_ensure_ticket_projection,
}

-- The ticket of a request, under an id.
abbrev pub requested : ProjectionRequest → ℕ → Ticket
requested request id = record {
  id = id;
  title = request.title;
  price = request.price;
  aggregate_version = request.aggregate_version;
}

-- Where the answer is good, the row of the ticket is the requested one.
abbrev pub Sent : {E : Type 0} → Ticket → Result E (Unit {0}) → OrdersDb → Type 0
Sent input (ok _) t = lookup input.id t.tickets ≡ some (ticket_row input)
Sent input (err _) t = Unit

Projected-Sent :
    (input : Ticket) (before : Option TicketRow) (r : Result Error (Unit {0})) (t : OrdersDb)
    → Projected input before r (lookup input.id t.tickets)
    → Sent input (respond projection_status (λ u. u) (answered r)) t
Projected-Sent input before (ok _) t h = h.0
Projected-Sent input before (err _) t h = tt

module _ (uuid_parse : Text → Option ℕ) (request : ProjectionRequest) where
  value-Sent :
      (s : Session OrdersDb)
      → let (r, s') =
          handle_ensure_ticket_projection uuid_parse (some ensure_ticket_projection) request s in
        Sent (requested request (value uuid_parse request.id)) r s'.tables
  unfolding handle_ensure_ticket_projection project
  value-Sent s =
      let input : Ticket = requested request (value uuid_parse request.id) in
      elim (Bool-cases (validate_projection uuid_parse request.id input)) [
        | inl valid ↦
            rw valid (Projected-Sent input _ _ _ (ensure_ticket_projection-Projected input s))
        | inr bad ↦ rw bad tt
      ]

  pub handle_ensure_ticket_projection-Sent :
      (id : ℕ)
      → uuid_parse request.id ≡ some id
      → (s : Session OrdersDb)
      → let (r, s') =
          handle_ensure_ticket_projection uuid_parse (some ensure_ticket_projection) request s in
        Sent (requested request id) r s'.tables
  handle_ensure_ticket_projection-Sent id e s =
      let v : value uuid_parse request.id ≡ id = ground (arith, e) in
      let (r, s') =
        handle_ensure_ticket_projection uuid_parse (some ensure_ticket_projection) request s in
      subst (λ i. Sent (requested request i) r s'.tables) v (value-Sent s)

  -- The handler keeps what the projection of the requested ticket keeps.
  value-Keeps :
      (I : OrdersDb → Type 0)
      → Keeps I (ensure_ticket_projection (requested request (value uuid_parse request.id)))
      → Keeps I (handle_ensure_ticket_projection uuid_parse (some ensure_ticket_projection) request)
  unfolding handle_ensure_ticket_projection project
  value-Keeps I h =
      let input : Ticket = requested request (value uuid_parse request.id) in
      elim (Bool-cases (validate_projection uuid_parse request.id input)) [
        | inl valid ↦ rw valid (record { holds = λ s i. h.holds s i })
        | inr bad ↦ rw bad (record { holds = λ s i. i })
      ]

  pub handle_ensure_ticket_projection-Keeps :
      (I : OrdersDb → Type 0) (id : ℕ)
      → uuid_parse request.id ≡ some id
      → Keeps I (ensure_ticket_projection (requested request id))
      → Keeps I (handle_ensure_ticket_projection uuid_parse (some ensure_ticket_projection) request)
  handle_ensure_ticket_projection-Keeps I id e h =
      let v : id ≡ value uuid_parse request.id = ground (arith, e) in
      value-Keeps I (subst (λ i. Keeps I (ensure_ticket_projection (requested request i))) v h)
