-- ===== src/Tickets/Retries.antt =====
-- Attempts at an edit, a claim or a release that failed, each in its own way, before one that goes
-- well: what the retries of the PersistTicketUpdate, ClaimTicket and ReleaseTicket activities come to
-- in the tables.
use polyglot_ticketing_v.Base.{ℕ, ◌≡◌, List}
use polyglot_ticketing_v.Base.Db.{Fault}
use polyglot_ticketing_v.Base.Db.Retry.{calm, attempts, attempts-RetrySafe}
use polyglot_ticketing_v.Tickets.Model.{UpdateInput, TicketsDb}
use polyglot_ticketing_v.Tickets.Repository.{
  update_with_idempotency, reserve_for_order, release_order_reservation,
}
use polyglot_ticketing_v.Tickets.Repository.ClaimReplays.{
  reserve_for_order-RetrySafe, release_order_reservation-RetrySafe,
}
use polyglot_ticketing_v.Tickets.Repository.Replays.{update_with_idempotency-RetrySafe}

-- After any attempts at an edit under one idempotency key, whatever went wrong in each, one that
-- goes well has the answer and the tables of a single one that goes well: the edit is made once.
pub update_with_idempotency_retried :
    (id : ℕ) (input : UpdateInput) (failures : List (List Fault)) (db : TicketsDb)
    → update_with_idempotency id input
        (calm (attempts (update_with_idempotency id input) failures db))
      ≡ update_with_idempotency id input (calm db)
update_with_idempotency_retried id input failures db =
    attempts-RetrySafe (update_with_idempotency id input)
      (update_with_idempotency-RetrySafe id input) failures db

-- After any attempts at one claim of a ticket by an order, or at one release, whatever went wrong in
-- each, one that goes well has the answer and the tables of a single one that goes well.
pub claims_retried :
    (ticket order : ℕ) (failures : List (List Fault)) (db : TicketsDb)
    → (reserve_for_order ticket order (calm (attempts (reserve_for_order ticket order) failures db))
        ≡ reserve_for_order ticket order (calm db))
      × (release_order_reservation ticket order
            (calm (attempts (release_order_reservation ticket order) failures db))
          ≡ release_order_reservation ticket order (calm db))
claims_retried ticket order failures db = (
  attempts-RetrySafe (reserve_for_order ticket order) (reserve_for_order-RetrySafe ticket order)
      failures db,
  attempts-RetrySafe (release_order_reservation ticket order)
      (release_order_reservation-RetrySafe ticket order) failures db,
)
