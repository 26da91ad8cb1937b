-- ===== src/Reservation/System/Frees.antt =====
-- What a workflow that releases a ticket leaves when it ends.
use polyglot_ticketing_v.Base.{
  ℕ, ◌≡◌, ◌≢◌, sym, ap, ◌∙◌, List, [], ◌∷◌, Option, none, some, true, false, Bool-cases, ==_iff,
  inl, inr, Text, Result, ok, err,
}
use mathlib.Core.Bool.{false≢true}
use mathlib.Core.Option.{none-ne-some, some-injective}
use mathlib.Core.Path.{subst}
use polyglot_ticketing_v.Base.Table.{lookup}
use polyglot_ticketing_v.Base.Db.{Fault, Session, later_faults}
use polyglot_ticketing_v.Base.Grpc.{respond}
use polyglot_ticketing_v.Base.Validation.{answered}
use polyglot_ticketing_v.Base.Temporal.{Failure, non_retryable, other_failure}
use polyglot_ticketing_v.World.{World}
use polyglot_ticketing_v.Orders.Model.{Order, PaymentResolutionResult, is_canceled}
use polyglot_ticketing_v.Orders.Repository.Answers.{IsResolution, resolve_payment_sound}
use polyglot_ticketing_v.Tickets.Model.{Error, TicketRow, TicketsDb}
use polyglot_ticketing_v.Tickets.Repository.{own}
use polyglot_ticketing_v.Tickets.Repository.Claims.{Released, release_order_reservation-Released}
use polyglot_ticketing_v.Tickets.Server.{release_status}
use polyglot_ticketing_v.Reservation.Activities
use polyglot_ticketing_v.Reservation.Activities.{CancelInput, ExpireInput, ResolvePaymentInput}
use polyglot_ticketing_v.Reservation.Activities.Steps.{rpc-Holding, released_session}
use polyglot_ticketing_v.Reservation.Later.{Holding, map_err-Holding, Given-Holding}
use polyglot_ticketing_v.Reservation.Workflow.{
  Answer, order_canceled, payment_resolved, Flow, finish, reserve_order, claim_ticket, cancel_order,
  expire_order, resolve_payment, release_ticket, start_child, sleep_until, cancel_order_workflow,
  resolve_payment_workflow,
}
use polyglot_ticketing_v.Reservation.System.Progress.{Anything, Anything-Holding}
use polyglot_ticketing_v.Reservation.System.{follow, advance}

-- The order does not have its ticket.
abbrev pub IsFreed : Order → World → Type 0
IsFreed o w =
    (row : TicketRow)
    → lookup o.ticket_id w.tickets.tickets ≡ some row
    → row.reserved_by_order_id ≢ some o.id

-- A cancellation answers an order that does not have its ticket, and so does a payment's resolution
-- where the order is canceled.
abbrev pub Freed : Result Failure Answer → World → Type 0
Freed (ok (order_canceled o)) w = IsFreed o w
Freed (ok (payment_resolved o)) w = is_canceled o.status ≡ true → IsFreed o w
Freed _ w = Unit

-- However the workflow goes on, it ends so; only activities of these two workflows come.
unfoldable Frees : Flow → World → Type 0
Frees (finish r) w = Freed r w
Frees (reserve_order input next) w = ⊥
Frees (claim_ticket o next) w = ⊥
Frees (cancel_order input next) w = (o : Order) (u : World) → Frees (next o) u
Frees (expire_order id next) w = ⊥
Frees (resolve_payment input next) w =
    (r : PaymentResolutionResult) (u : World)
    → r.should_release_ticket ≡ is_canceled r.order.status
    → Frees (next r) u
Frees (release_ticket o next) w = (u : World) → IsFreed o u → Frees next u
Frees (start_child input next) w = ⊥
Frees (sleep_until deadline next) w = ⊥

own-IsFreed : (id : ℕ) (holder : Option ℕ) → own id holder ≡ false → holder ≢ some id
unfolding own
own-IsFreed id none h e = none-ne-some id e
own-IsFreed id (some holder) h e =
    false≢true (sym h ∙ (==_iff holder id).1 (some-injective holder id e))

-- A release that succeeds leaves the order without its ticket.
Released-IsFreed :
    (o : Order) (before : Option TicketRow) (w : World)
    → Released o.id before (ok tt) (lookup o.ticket_id w.tickets.tickets)
    → IsFreed o w
Released-IsFreed o none w (inl h) row at = absurd h
Released-IsFreed o none w (inr (same, h)) row at = absurd h
Released-IsFreed o (some found) w (inl (pass, cleared)) row at =
    let one : record found { reserved_by_order_id = none } ≡ row =
      some-injective _ row (sym cleared ∙ at) in
    λ e. none-ne-some o.id (ap (λ (x : TicketRow). x.reserved_by_order_id) one ∙ e)
Released-IsFreed o (some found) w (inr (same, fail)) row at =
    let one : found ≡ row = some-injective found row (sym same ∙ at) in
    λ e.
      own-IsFreed o.id found.reserved_by_order_id fail
        (ap (λ (x : TicketRow). x.reserved_by_order_id) one ∙ e)

Released-Holding :
    (o : Order) (before : Option TicketRow) (r : Result Error (Unit {0})) (w : World)
    (faults : List Fault)
    → Released o.id before r (lookup o.ticket_id w.tickets.tickets)
    → Holding
        (λ _. IsFreed o)
        (respond release_status (λ u. u) (answered r), record { tables = w; faults = faults })
Released-Holding o before (ok _) w faults h = Released-IsFreed o before w h
Released-Holding o before (err _) w faults h = tt

-- The ticket of an answer is to be released just where its order is canceled.
abbrev ReleasesCanceled : PaymentResolutionResult → World → Type 0
ReleasesCanceled r w = r.should_release_ticket ≡ is_canceled r.order.status

resolve_payment-Holding :
    (input : ResolvePaymentInput) (s : Session World)
    → Holding ReleasesCanceled (Activities.resolve_payment input s)
unfolding Activities.resolve_payment
resolve_payment-Holding input s = map_err-Holding ReleasesCanceled _ _ _ (
    Given-Holding ReleasesCanceled (IsResolution input.outcome) _ s.tables _ _
      ((resolve_payment_sound input.order_id input.outcome).holds _ tt) (λ r h. h.2))

module _ {A : Type 0} (Q : A → World → Type 0) (again : Flow) (next : A → Flow)
    (due : (u : World) → Frees again u) (on : (a : A) (u : World) → Q a u → Frees (next a) u) where
  follow-Frees :
      (r : Result Failure A) (s : Session World)
      → Holding Q (r, s)
      → Frees (follow again next r) s.tables
  unfolding Frees
  follow-Frees (ok a) s h = on a s.tables h
  follow-Frees (err (non_retryable t)) s h = tt
  follow-Frees (err other_failure) s h = due s.tables

-- What a workflow starts with that releases a ticket before it answers.
pub data ReleasingJob : Type 0 where
  cancellation : CancelInput → ReleasingJob
  resolution : ResolvePaymentInput → ReleasingJob

abbrev pub flow_of : ReleasingJob → Flow
flow_of (cancellation input) = cancel_order_workflow input
flow_of (resolution input) = resolve_payment_workflow input

flow_of-Frees : (job : ReleasingJob) (w : World) → Frees (flow_of job) w
unfolding Frees cancel_order_workflow resolve_payment_workflow
flow_of-Frees (cancellation input) w = λ o u v freed. freed
flow_of-Frees (resolution input) w = λ r u same. elim (Bool-cases r.should_release_ticket) [
  | inl release ↦ rw release (λ v freed _. freed)
  | inr keep ↦ rw keep (λ canceled. absurd (false≢true (sym keep ∙ same ∙ canceled)))
]

-- An attempt: a time, a new UUID, what goes wrong, and the databases that it finds.
abbrev pub Attempt : Type 0
Attempt = ℕ × ℕ × List Fault × World

module _ (uuid_parse : Text → Option ℕ) (uuid_text : ℕ → Text) where
  -- Attempt after attempt until the workflow ends: what is left of it, and the databases as the last
  -- attempt left them.
  unfoldable pub drive : List Attempt → Flow → World → Flow × World
  drive [] f w = (f, w)
  drive (a ∷ rest) (finish r) w = (finish r, w)
  drive ((now, random_id, faults, found) ∷ rest) f w =
      let m = advance uuid_parse uuid_text now random_id faults f found in drive rest m.rest m.world

module _ (uuid_parse : Text → Option ℕ) (uuid_text : ℕ → Text)
    (uuid_law : (id : ℕ) → uuid_parse (uuid_text id) ≡ some id) where
  release_ticket-Holding :
      (o : Order) (s : Session World)
      → Holding (λ _. IsFreed o) (Activities.release_ticket uuid_parse uuid_text o s)
  unfolding Activities.release_ticket
  release_ticket-Holding o s =
      let u : Session TicketsDb = record {
        tables = s.tables.tickets;
        faults = later_faults s.faults;
      } in
      map_err-Holding (λ _. IsFreed o) _ _ _
        (rpc-Holding (λ _. IsFreed o) _ s
          (subst
            (λ x.
              Holding (λ _. IsFreed o)
                (
                  x.0,
                  record { tables = record s.tables { tickets = x.1.tables }; faults = x.1.faults },
                ))
            (sym (released_session uuid_parse uuid_text uuid_law o u))
            (Released-Holding o _ _ _ _ (release_order_reservation-Released o.ticket_id o.id u))))

  advance-Frees :
      (now random_id : ℕ) (faults : List Fault) (f : Flow) (w found : World)
      → ((u : World) → Frees f u)
      → let m = advance uuid_parse uuid_text now random_id faults f found in Frees m.rest m.world
  unfolding advance Frees
  advance-Frees now random_id faults (finish r) w found frees = frees found
  advance-Frees now random_id faults (cancel_order input next) w found frees =
      follow-Frees Anything (cancel_order input next) next frees (λ o u _. frees found o u) _ _
        (Anything-Holding (Activities.cancel_order input)
          (record { tables = found; faults = faults }))
  advance-Frees now random_id faults (resolve_payment input next) w found frees =
      follow-Frees ReleasesCanceled (resolve_payment input next) next frees (frees found) _ _
        (resolve_payment-Holding input (record { tables = found; faults = faults }))
  advance-Frees now random_id faults (release_ticket o next) w found frees =
      follow-Frees (λ (_ : Unit {0}). IsFreed o) (release_ticket o next) (λ _. next) frees
        (λ _ u. frees found u) _ _
        (release_ticket-Holding o (record { tables = found; faults = faults }))
  advance-Frees now random_id faults _ w found frees = absurd (frees found)

  drive-Frees :
      (attempts : List Attempt) (f : Flow) (w : World)
      → Frees f w
      → let (g, u) = drive uuid_parse uuid_text attempts f w in Frees g u
  unfolding drive Frees
  drive-Frees [] f w frees = frees
  drive-Frees (a ∷ rest) (finish r) w frees = frees
  drive-Frees ((now, random_id, faults, found) ∷ rest) (cancel_order input next) w frees =
      drive-Frees rest _ _
        (advance-Frees now random_id faults (cancel_order input next) w found (λ _. frees))
  drive-Frees ((now, random_id, faults, found) ∷ rest) (resolve_payment input next) w frees =
      drive-Frees rest _ _
        (advance-Frees now random_id faults (resolve_payment input next) w found (λ _. frees))
  drive-Frees ((now, random_id, faults, found) ∷ rest) (release_ticket o next) w frees =
      drive-Frees rest _ _
        (advance-Frees now random_id faults (release_ticket o next) w found (λ _. frees))
  drive-Frees (a ∷ rest) _ w frees = absurd frees

  -- If UUIDs go through their texts unchanged, whatever goes wrong in its attempts and whatever is
  -- written to the databases between them: where a cancellation's workflow ends with an order, then,
  -- in the databases that its last attempt leaves, that order does not have its ticket; and where the
  -- workflow of a payment's resolution ends with an order, neither does that one if it is canceled.
  pub drive-Freed :
      (attempts : List Attempt) (job : ReleasingJob) (w : World) (r : Result Failure Answer)
      (u : World)
      → drive uuid_parse uuid_text attempts (flow_of job) w ≡ (finish r, u)
      → Freed r u
  unfolding Frees
  drive-Freed attempts job w r u ends =
      subst (λ (x : Flow × World). Frees x.0 x.1) ends
        (drive-Frees attempts (flow_of job) w (flow_of-Frees job w))
