-- ===== src/Creation/TicketCreation/History/Ready.antt =====
-- What a workflow of a creation or of an update has at hand is recorded, and it
-- projects nothing else.
use mathlib.Core.Path.{subst}
use polyglot_ticketing_v.Base.{
  ℕ, ◌≡◌, refl, sym, List, Option, none, some, Text, Result, ok, err, Bool-cases, inl, inr, leb,
}
use polyglot_ticketing_v.Base.Lists.{get_elem?}
use polyglot_ticketing_v.Base.Db.{Fault, Session}
use polyglot_ticketing_v.Base.Temporal.{Failure, non_retryable, other_failure}
use polyglot_ticketing_v.World.{World}
use polyglot_ticketing_v.Tickets.Model.{Ticket, TicketsDb}
use polyglot_ticketing_v.Tickets.Repository.Recorded.{TicketRecorded, Onward, Draft}
use polyglot_ticketing_v.Reservation.Later.{Holding}
use polyglot_ticketing_v.Creation.TicketCreation.{
  UpdateTicketInput, project_ticket_to_orders, TicketFlow, finish, persist, persist_update, project,
  create_ticket_workflow, update_ticket_handler, follow, advance,
}
use polyglot_ticketing_v.Creation.TicketCreation.Projected.{any-Holding}
use polyglot_ticketing_v.Creation.TicketCreation.UpdateWorkflow.{
  UpdateRun, accept, lock, continue_as_new, unlock_if_through, locked_by, lock_if, hold_on,
  carry_on, max_updates_per_workflow,
}
use polyglot_ticketing_v.Creation.TicketCreation.History.{input_of}
use polyglot_ticketing_v.Creation.TicketCreation.History.Synced.{Synced, Kept, Kept-refl}
use polyglot_ticketing_v.Creation.TicketCreation.History.Attempts.{
  IsDraft, persist_ticket-Attempted, persist_ticket_update-Attempted, project_ticket_to_orders-Kept,
}

module _ (uuid_parse : Text → Option ℕ) (uuid_text : ℕ → Text)
    (uuid_law : (id : ℕ) → uuid_parse (uuid_text id) ≡ some id) (origin : ℕ → Draft) where
  -- What the workflow is about to project is recorded, and so will be what it has yet to persist.
  pub Ready : TicketFlow → TicketsDb → Type 0
  Ready (finish r) db = Unit
  Ready (persist input next) db =
      IsDraft origin uuid_parse input
      × ((t : Ticket) (u : TicketsDb) → TicketRecorded t u → Ready (next t) u)
  Ready (persist_update input next) db =
      (t : Ticket) (u : TicketsDb) → TicketRecorded t u → Ready (next t) u
  Ready (project t next) db = TicketRecorded t db × Ready next db

  pub Ready-Onward : (f : TicketFlow) (a b : TicketsDb) → Onward a b → Ready f a → Ready f b
  unfolding Ready
  Ready-Onward (finish r) a b on h = tt
  Ready-Onward (persist input next) a b on h = h
  Ready-Onward (persist_update input next) a b on h = h
  Ready-Onward (project t next) a b on h = (on _ _ _ _ h.0, Ready-Onward next a b on h.1)

  pub create_ticket_workflow-Ready :
      (id : ℕ) (db : TicketsDb)
      → Ready (create_ticket_workflow (input_of uuid_parse uuid_text origin id)) db
  unfolding Ready create_ticket_workflow
  create_ticket_workflow-Ready id db = ((id, uuid_law id, refl, refl), λ t u r. (r, tt))

  update_ticket_handler-Ready :
      (input : UpdateTicketInput) (db : TicketsDb) → Ready (update_ticket_handler input) db
  unfolding Ready update_ticket_handler
  update_ticket_handler-Ready input db = λ t u r. (r, tt)

  -- What follows an attempt of which the world keeps what the first part needs.
  follow-Ready :
      {A : Type 0} (Q : A → World → Type 0) (again : TicketFlow) (next : A → TicketFlow)
      (r : Result Failure A) (s : Session World)
      → Holding Q (r, s)
      → Ready again s.tables.tickets
      → ((a : A) → Q a s.tables → Ready (next a) s.tables.tickets)
      → Ready (follow again next r) s.tables.tickets
  unfolding Ready
  follow-Ready Q again next (ok a) s h k on = on a h
  follow-Ready Q again next (err (non_retryable t)) s h k on = tt
  follow-Ready Q again next (err other_failure) s h k on = k

  pub advance-Ready :
      (random_id : ℕ) (faults : List Fault) (f : TicketFlow) (w : World)
      → Ready f w.tickets
      → Synced origin w
      → let (g, u) = advance uuid_parse uuid_text random_id faults f w in
        Kept origin w u × Ready g u.tickets
  unfolding advance Ready
  advance-Ready random_id faults (finish r) w h synced = (Kept-refl origin w synced, tt)
  advance-Ready random_id faults (persist input next) w h synced =
      let s : Session World = record { tables = w; faults = faults } in
      let (kept, held) =
        persist_ticket-Attempted origin uuid_parse uuid_text random_id input s h.0 synced in
      (kept, follow-Ready _ (persist input next) next _ _ held h (λ t. h.1 t _))
  advance-Ready random_id faults (persist_update input next) w h synced =
      let s : Session World = record { tables = w; faults = faults } in
      let (kept, held) =
        persist_ticket_update-Attempted origin uuid_parse uuid_text input s synced in
      (kept, follow-Ready _ (persist_update input next) next _ _ held h (λ t. h t _))
  advance-Ready random_id faults (project t next) w h synced =
      let s : Session World = record { tables = w; faults = faults } in
      let call = project_ticket_to_orders uuid_parse uuid_text t s in
      let kept =
        project_ticket_to_orders-Kept origin uuid_parse uuid_text uuid_law t s synced h.0 in
      let on : Ready (project t next) call.1.tables.tickets =
        Ready-Onward (project t next) w.tickets call.1.tables.tickets kept.onward h in
      (
        kept,
        follow-Ready (λ _ _. Unit {0}) (project t next) (λ _. next) call.0 call.1
            (any-Holding call.0 call.1) on (λ _ _. on.1),
      )

  -- The handler that has the lock is ready; those that wait always are.
  abbrev pub HolderReady : Option TicketFlow → TicketsDb → Type 0
  HolderReady none db = Unit
  HolderReady (some f) db = Ready f db

  abbrev pub RunReady : UpdateRun → TicketsDb → Type 0
  RunReady r db = HolderReady r.holder db

  pub HolderReady-Onward :
      (holder : Option TicketFlow) (a b : TicketsDb)
      → Onward a b
      → HolderReady holder a
      → HolderReady holder b
  HolderReady-Onward none a b on h = tt
  HolderReady-Onward (some f) a b on h = Ready-Onward f a b on h

  pub accept-RunReady :
      (input : UpdateTicketInput) (r : UpdateRun) (db : TicketsDb)
      → RunReady r db
      → RunReady (accept input r) db
  unfolding accept
  accept-RunReady input r db h = h

  locked_by-RunReady :
      (i : ℕ) (next : Option UpdateTicketInput) (r : UpdateRun) (db : TicketsDb)
      → RunReady r db
      → RunReady (locked_by i next r) db
  locked_by-RunReady i none r db h = h
  locked_by-RunReady i (some input) r db h = update_ticket_handler-Ready input db

  lock_if-RunReady :
      (holder : Option TicketFlow) (i : ℕ) (r : UpdateRun) (db : TicketsDb)
      → RunReady r db
      → RunReady (lock_if holder i r) db
  lock_if-RunReady none i r db h = locked_by-RunReady i (get_elem? r.waiting i) r db h
  lock_if-RunReady (some f) i r db h = h

  pub lock-RunReady :
      (i : ℕ) (r : UpdateRun) (db : TicketsDb) → RunReady r db → RunReady (lock i r) db
  unfolding lock
  lock-RunReady i r = lock_if-RunReady r.holder i r

  unlock-RunReady :
      (f : TicketFlow) (r : UpdateRun) (db : TicketsDb)
      → Ready f db
      → RunReady (unlock_if_through f r) db
  unfolding unlock_if_through
  unlock-RunReady (finish (ok t)) r db h = tt
  unlock-RunReady (finish (err e)) r db h = tt
  unlock-RunReady (persist input next) r db h = h
  unlock-RunReady (persist_update input next) r db h = h
  unlock-RunReady (project t next) r db h = h

  pub continue_as_new-RunReady :
      (r : UpdateRun) (db : TicketsDb) → RunReady r db → RunReady (continue_as_new r) db
  unfolding continue_as_new
  continue_as_new-RunReady r db h =
      elim (Bool-cases (leb max_updates_per_workflow r.completed_updates)) [
        | inl due ↦ rw due tt
        | inr early ↦ rw early h
      ]

  hold_on-Ready :
      (faults : List Fault) (holder : Option TicketFlow) (r : UpdateRun) (w : World)
      → r.holder ≡ holder
      → HolderReady holder w.tickets
      → Synced origin w
      → let (r', u) = hold_on uuid_parse uuid_text faults holder r w in
        Kept origin w u × RunReady r' u.tickets
  hold_on-Ready faults none r w e h synced =
      (Kept-refl origin w synced, subst (λ o. HolderReady o w.tickets) (sym e) tt)
  hold_on-Ready faults (some f) r w e h synced =
      let (kept, ready) = advance-Ready 0 faults f w h synced in (kept, unlock-RunReady _ r _ ready)

  pub carry_on-Ready :
      (faults : List Fault) (r : UpdateRun) (w : World)
      → RunReady r w.tickets
      → Synced origin w
      → let (r', u) = carry_on uuid_parse uuid_text faults r w in
        Kept origin w u × RunReady r' u.tickets
  unfolding carry_on
  carry_on-Ready faults r w = hold_on-Ready faults r.holder r w refl
