-- ===== src/Creation/TicketCreation/History/Attempts.antt =====
-- The copies of tickets that Orders has: one attempt at an activity of a creation or of an update leaves
-- no copy that Tickets did not record, and answers what Tickets recorded.
use polyglot_ticketing_v.Base.{
  ℕ, ◌≡◌, [], Option, some, Text, Bool-cases, inl, inr, not, is_some, ◌||◌, text_eq,
}
use polyglot_ticketing_v.Base.Db.{
  Fault, healthy, rejected, lost, Session, Db, next_fault, later_faults,
}
use polyglot_ticketing_v.Base.Db.Keeps.{Keeps}
use polyglot_ticketing_v.Base.Grpc.{Status}
use polyglot_ticketing_v.World.{World, deliver}
use polyglot_ticketing_v.Orders.Model.{OrdersDb}
use polyglot_ticketing_v.Orders.Projection.Kept.{ensure_ticket_projection-Keeps, upsert-Keeps}
use polyglot_ticketing_v.Orders.Projection.{ensure_ticket_projection}
use polyglot_ticketing_v.Orders.Wire.{ProjectionRequest}
use polyglot_ticketing_v.Orders.Server.{handle_ensure_ticket_projection}
use polyglot_ticketing_v.Orders.Server.Projected.{requested, handle_ensure_ticket_projection-Keeps}
use polyglot_ticketing_v.Tickets.Repository.ById.{is_unread, update_by_text, refuse_id_same}
use polyglot_ticketing_v.Tickets.Model.{Ticket, TicketsDb}
use polyglot_ticketing_v.Tickets.Repository.Recorded.{TicketRecorded, Draft}
use polyglot_ticketing_v.Tickets.Repository.Originals.{create-Answers}
use polyglot_ticketing_v.Tickets.Repository.Snapshots.{update_with_idempotency-Answers}
use polyglot_ticketing_v.Reservation.Later.{map_err-Holding}
use polyglot_ticketing_v.Creation.TicketCreation.{
  persist_failure, update_failure, Input, UpdateTicketInput, bad_fields, persist_ticket,
  persist_ticket_update, projection_request, project_ticket_to_orders,
}
use polyglot_ticketing_v.Creation.TicketCreation.History.Synced.{
  IsCopied, write-IsCopied, Synced, Kept, Kept-refl, Attempted, on_tickets-Attempted,
  on_orders-Kept,
}

module _ (origin : ℕ → Draft) where
  -- The input of a creation is its ticket's draft.
  abbrev pub IsDraft : (Text → Option ℕ) → Input → Type 0
  IsDraft uuid_parse input =
      (id : ℕ) × (uuid_parse input.id ≡ some id)
      × (input.title ≡ (origin id).title)
      × (input.price ≡ (origin id).price)

  module _ (uuid_parse : Text → Option ℕ) (uuid_text : ℕ → Text) where
    abbrev Answered : Ticket → World → Type 0
    Answered t w = TicketRecorded t w.tickets

    pub persist_ticket-Attempted :
        (random_id : ℕ) (input : Input) (s : Session World)
        → IsDraft uuid_parse input
        → Synced origin s.tables
        → Attempted origin Answered s.tables (persist_ticket uuid_parse uuid_text random_id input s)
    unfolding persist_ticket
    persist_ticket-Attempted random_id input s (id, parsed, title, price) h =
        elim (Bool-cases (
          not (is_some (uuid_parse input.id))
          || bad_fields input.title input.price input.user_id)) [
            | inl bad ↦ rw bad (Kept-refl origin s.tables h, tt)
            | inr good ↦
                let (kept, held) =
                  on_tickets-Attempted origin TicketRecorded _ s
                    (create-Answers origin s.tables.tickets random_id id _ parsed title price) h in
                rw good (kept, map_err-Holding Answered persist_failure _ _ held)
          ]

    pub persist_ticket_update-Attempted :
        (input : UpdateTicketInput) (s : Session World)
        → Synced origin s.tables
        → Attempted origin Answered s.tables (persist_ticket_update uuid_parse uuid_text input s)
    unfolding persist_ticket_update update_by_text
    persist_ticket_update-Attempted input s h =
        elim (Bool-cases (
          not (is_some (uuid_parse input.id))
          || bad_fields input.title input.price input.user_id
          || text_eq input.idempotency_key [])) [
            | inl bad ↦ rw bad (Kept-refl origin s.tables h, tt)
            | inr good ↦ elim (Bool-cases (is_unread input.id)) [
              | inl unread ↦
                  let (_, _, same) = refuse_id_same s.tables.tickets s.faults in
                  rw good (rw unread (rw same (Kept-refl origin s.tables h, tt)))
              | inr read ↦
                  let (kept, held) =
                    on_tickets-Attempted origin TicketRecorded _ s
                      (update_with_idempotency-Answers origin s.tables.tickets _ _) h in
                  rw good (rw read (kept, map_err-Holding Answered update_failure _ _ held))
            ]
          ]

    module _ (uuid_law : (id : ℕ) → uuid_parse (uuid_text id) ≡ some id) where
      handler-Keeps :
          (tickets : TicketsDb) (t : Ticket)
          → TicketRecorded t tickets
          → Keeps (IsCopied tickets) (
              handle_ensure_ticket_projection uuid_parse
                (some ensure_ticket_projection)
                (projection_request uuid_parse uuid_text t))
      handler-Keeps tickets t now =
          let I : OrdersDb → Type 0 = λ db. IsCopied tickets db in
          let request : ProjectionRequest = projection_request uuid_parse uuid_text t in
          handle_ensure_ticket_projection-Keeps uuid_parse request I t.id (uuid_law t.id) (
            ensure_ticket_projection-Keeps I (requested request t.id) (λ db h.
              upsert-Keeps I (requested request t.id) db (write-IsCopied tickets t now db h) h))

      deliver-Kept :
          (fault : Fault) (handler : Db World Status (Unit {0})) (s : Session World)
          → Synced origin s.tables
          → Kept origin s.tables (handler s).1.tables
          → Kept origin s.tables (deliver fault handler s).1.tables
      deliver-Kept healthy handler s h k = k
      deliver-Kept (rejected _) handler s h k = Kept-refl origin s.tables h
      deliver-Kept (lost _) handler s h k = k

      pub project_ticket_to_orders-Kept :
          (t : Ticket) (s : Session World)
          → Synced origin s.tables
          → TicketRecorded t s.tables.tickets
          → Kept origin s.tables (project_ticket_to_orders uuid_parse uuid_text t s).1.tables
      unfolding project_ticket_to_orders
      project_ticket_to_orders-Kept t s h now =
          let s' : Session World = record s { faults = later_faults s.faults } in
          deliver-Kept (next_fault s.faults) _ s' h
            (on_orders-Kept origin _ s' (handler-Keeps s.tables.tickets t now) h)
