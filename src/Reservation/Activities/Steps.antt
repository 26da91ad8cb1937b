-- ===== src/Reservation/Activities/Steps.antt =====
-- What one attempt at each activity does to the orders and to the claims, and what it answers.
use mathlib.Core.Path.{subst}
use polyglot_ticketing_v.Base.{
  ℕ, ◌≡◌, refl, sym, ◌∙◌, List, true, ◌==◌, ==_iff, Bool-cases, Option, none, some, inl, inr, Text,
  Result, ok, err, arith,
}
use polyglot_ticketing_v.Base.Table.{lookup}
use polyglot_ticketing_v.Base.Db.{
  Fault, healthy, rejected, lost, Session, Db, next_fault, later_faults,
}
use polyglot_ticketing_v.Base.Grpc.{Status, handle, respond, unvalidated}
use polyglot_ticketing_v.Base.Validation.{answered}
use polyglot_ticketing_v.World.{World, deliver, rpc}
use polyglot_ticketing_v.Orders.Model.{
  Order, TicketReservationInput, ExpirationResult, PaymentResolutionResult,
}
use polyglot_ticketing_v.Orders.Repository.{
  reserve_ticket, cancel_by_id_and_user, expire_created_order,
}
use polyglot_ticketing_v.Orders.Repository
use polyglot_ticketing_v.Orders.Repository.Answers.{
  IsCanceledOrder, cancel_by_id_and_user_sound, IsExpiry, expire_created_order_sound, IsResolution,
  resolve_payment_sound,
}
use polyglot_ticketing_v.Orders.Repository.Transitions.{
  reserve_ticket-Evolves, cancel_by_id_and_user-Evolves, expire_created_order-Evolves,
  resolve_payment-Evolves,
}
use polyglot_ticketing_v.Tickets.Model.{Error, TicketRow, TicketsDb}
use polyglot_ticketing_v.Tickets.Repository.{
  free_or_own, reserve_for_order, release_order_reservation,
}
use polyglot_ticketing_v.Tickets.Repository.Claims.{Sets, Reserved, reserve_for_order-Reserved}
use polyglot_ticketing_v.Tickets.Repository.Frozen.{
  At, reserve_for_order-At, release_order_reservation-At,
}
use polyglot_ticketing_v.Tickets.Server.{
  reserve_status, release_status, handle_reserve, handle_release,
}
use polyglot_ticketing_v.Tickets.Server.Parsed.{handle_reserve-parsed, handle_release-parsed}
use polyglot_ticketing_v.Reservation.Activities.{
  CancelInput, ResolvePaymentInput, reserve_order, cancel_order, expire_order, resolve_payment,
  claim_ticket, release_ticket,
}
use polyglot_ticketing_v.Reservation.Later.{
  IsCanceled, Moves, on_orders-Moves, on_tickets-Moves, rpc-Moves, Holding, map_err-Holding,
  Given-Holding,
}

pub reserve_order-Moves :
    (random_id : ℕ) (input : TicketReservationInput) (s : Session World)
    → Moves (reserve_order random_id input) s
unfolding reserve_order
reserve_order-Moves random_id input s =
    on_orders-Moves (reserve_ticket random_id input) s
      (λ before. reserve_ticket-Evolves before random_id input)

pub cancel_order-Moves : (input : CancelInput) (s : Session World) → Moves (cancel_order input) s
unfolding cancel_order
cancel_order-Moves input s =
    on_orders-Moves (cancel_by_id_and_user input.order_id input.user_id) s
      (λ before. cancel_by_id_and_user-Evolves before input.order_id input.user_id)

pub expire_order-Moves : (now id : ℕ) (s : Session World) → Moves (expire_order now id) s
unfolding expire_order
expire_order-Moves now id s =
    on_orders-Moves (expire_created_order now id) s
      (λ before. expire_created_order-Evolves before now id)

pub resolve_payment-Moves :
    (input : ResolvePaymentInput) (s : Session World) → Moves (resolve_payment input) s
unfolding resolve_payment
resolve_payment-Moves input s =
    on_orders-Moves (Repository.resolve_payment input.order_id input.outcome) s
      (λ before. resolve_payment-Evolves before input.order_id input.outcome)

-- The order of an answer is canceled.
abbrev pub OrderCanceled : Order → World → Type 0
OrderCanceled o w = IsCanceled o.id w.orders

abbrev pub ExpiryCanceled : ExpirationResult → World → Type 0
ExpiryCanceled r w = r.should_release_ticket ≡ true → IsCanceled r.order.id w.orders

abbrev pub ResolutionCanceled : PaymentResolutionResult → World → Type 0
ResolutionCanceled r w = r.should_release_ticket ≡ true → IsCanceled r.order.id w.orders

pub cancel_order-Holding :
    (input : CancelInput) (s : Session World) → Holding OrderCanceled (cancel_order input s)
unfolding cancel_order
cancel_order-Holding input s = map_err-Holding OrderCanceled _ _ _ (
    Given-Holding OrderCanceled IsCanceledOrder _ s.tables _ _
      ((cancel_by_id_and_user_sound input.order_id input.user_id).holds _ tt)
      (λ o h. (_, h.0, h.1)))

pub expire_order-Holding :
    (now id : ℕ) (s : Session World) → Holding ExpiryCanceled (expire_order now id s)
unfolding expire_order
expire_order-Holding now id s = map_err-Holding ExpiryCanceled _ _ _ (
    Given-Holding ExpiryCanceled IsExpiry _ s.tables _ _
      ((expire_created_order_sound now id).holds _ tt) (λ r h release. (_, h.0, sym h.1 ∙ release)))

pub resolve_payment-Holding :
    (input : ResolvePaymentInput) (s : Session World)
    → Holding ResolutionCanceled (resolve_payment input s)
unfolding resolve_payment
resolve_payment-Holding input s = map_err-Holding ResolutionCanceled _ _ _ (
    Given-Holding ResolutionCanceled (IsResolution input.outcome) _ s.tables _ _
      ((resolve_payment_sound input.order_id input.outcome).holds _ tt)
      (λ r h release. (_, h.0, sym h.2 ∙ release)))

-- The ticket is there, and the order has it.
abbrev pub Claims : Order → World → Type 0
Claims o w =
    (row : TicketRow) × (lookup o.ticket_id w.tickets.tickets ≡ some row)
    × (row.reserved_by_order_id ≡ some o.id)

module _ {A : Type 0} (Q : A → World → Type 0) (handler : Db World Status A) where
  deliver-Holding :
      (fault : Fault) (s : Session World)
      → Holding Q (handler s)
      → Holding Q (deliver fault handler s)
  deliver-Holding healthy s h = h
  deliver-Holding (rejected _) s h = tt
  deliver-Holding (lost _) s h = tt

  pub rpc-Holding :
      (s : Session World)
      → Holding Q (handler (record s { faults = later_faults s.faults }))
      → Holding Q (rpc handler s)
  rpc-Holding s =
      deliver-Holding (next_fault s.faults) (record s { faults = later_faults s.faults })

Sets-Claims :
    (o : Order) (before : Option TicketRow) (w : World)
    → Sets (free_or_own o.id) (some o.id) before (lookup o.ticket_id w.tickets.tickets)
    → Claims o w
Sets-Claims o none w h = absurd h
Sets-Claims o (some row) w h = (record row { reserved_by_order_id = some o.id }, h.1, refl)

Reserved-Holding :
    (o : Order) (before : Option TicketRow) (r : Result Error (Unit {0})) (w : World)
    (faults : List Fault)
    → Reserved (free_or_own o.id) (some o.id) before r (lookup o.ticket_id w.tickets.tickets)
    → Holding
        (λ _. Claims o)
        (respond reserve_status (λ u. u) (answered r), record { tables = w; faults = faults })
Reserved-Holding o before (ok _) w faults h = Sets-Claims o before w h
Reserved-Holding o before (err _) w faults h = tt

-- Ids go over gRPC as texts that give them back.
module _ (uuid_parse : Text → Option ℕ) (uuid_text : ℕ → Text)
    (uuid_law : (id : ℕ) → uuid_parse (uuid_text id) ≡ some id) where
  pub reserved_session :
      (o : Order) (s : Session TicketsDb)
      → handle_reserve uuid_parse (uuid_text o.ticket_id) (uuid_text o.id) s
        ≡ handle reserve_status (λ u. u) (unvalidated (reserve_for_order o.ticket_id o.id)) s
  reserved_session o =
      handle_reserve-parsed uuid_parse (uuid_text o.ticket_id) (uuid_text o.id) o.ticket_id o.id
        (uuid_law o.ticket_id) (uuid_law o.id)

  pub released_session :
      (o : Order) (s : Session TicketsDb)
      → handle_release uuid_parse (uuid_text o.ticket_id) (uuid_text o.id) s
        ≡ handle release_status
            (λ u. u)
            (unvalidated (release_order_reservation o.ticket_id o.id))
            s
  released_session o =
      handle_release-parsed uuid_parse (uuid_text o.ticket_id) (uuid_text o.id) o.ticket_id o.id
        (uuid_law o.ticket_id) (uuid_law o.id)

  pub claim_ticket-Moves :
      (o : Order) (s : Session World) → Moves (claim_ticket uuid_parse uuid_text o) s
  unfolding claim_ticket
  claim_ticket-Moves o s = rpc-Moves _ s (
      on_tickets-Moves (handle_reserve uuid_parse (uuid_text o.ticket_id) (uuid_text o.id)) _
        λ ticket order row held. inl (record {
          holds = λ s h.
              subst (λ x. At ticket row order held x.1.tables) (sym (reserved_session o s))
                ((reserve_for_order-At ticket row order held o.ticket_id o.id).holds s h);
        }))

  pub claim_ticket-Holding :
      (o : Order) (s : Session World)
      → Holding (λ _. Claims o) (claim_ticket uuid_parse uuid_text o s)
  unfolding claim_ticket
  claim_ticket-Holding o s =
      let u : Session TicketsDb = record {
        tables = s.tables.tickets;
        faults = later_faults s.faults;
      } in
      map_err-Holding (λ _. Claims o) _ _ _
        (rpc-Holding (λ _. Claims o) _ s
          (subst
            (λ x.
              Holding (λ _. Claims o)
                (
                  x.0,
                  record { tables = record s.tables { tickets = x.1.tables }; faults = x.1.faults },
                ))
            (sym (reserved_session o u))
            (Reserved-Holding o _ _ _ _ (reserve_for_order-Reserved o.ticket_id o.id u))))

  -- A release of a canceled order's claim.
  pub release_ticket-Moves :
      (o : Order) (s : Session World)
      → IsCanceled o.id s.tables.orders
      → Moves (release_ticket uuid_parse uuid_text o) s
  unfolding release_ticket
  release_ticket-Moves o s dead = rpc-Moves _ s (
      on_tickets-Moves (handle_release uuid_parse (uuid_text o.ticket_id) (uuid_text o.id)) _
        λ ticket order row held. elim (Bool-cases (order == o.id)) [
          | inl same ↦
              inr (
                subst (λ id. IsCanceled id s.tables.orders) (sym ((==_iff order o.id).0 same)) dead)
          | inr apart ↦ inl (record {
            holds = λ s h.
                subst (λ x. At ticket row order held x.1.tables) (sym (released_session o s))
                  ((release_order_reservation-At ticket row order held o.ticket_id o.id
                      (λ _ e. ground arith)).holds
                    s h);
          })
        ])
