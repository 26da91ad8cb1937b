-- ===== src/Creation/TicketCreation/UpdateWorkflow/Turns.antt =====
-- The turns of the handlers of one ticket's updates, and what the lock keeps: Orders' copy of the ticket
-- is level with Tickets, or one version behind while the handler that has the lock projects it.
use mathlib.Core.Path.{subst}
use polyglot_ticketing_v.Base.{
  ℕ, ◌≡◌, ◌||◌, refl, sym, ap, ◌∙◌, true, false, not, List, [], Option, none, some, Text, text_eq,
  is_some, Result, ok, err, inl, inr, Bool-cases, arith,
}
use polyglot_ticketing_v.Base.Int.{pos, suc_ℤ}
use polyglot_ticketing_v.Base.Table.{lookup}
use polyglot_ticketing_v.Base.Db.{Fault, Session}
use polyglot_ticketing_v.Base.Db.Answers.{Good}
use polyglot_ticketing_v.Base.Temporal.{FailureType, Failure, non_retryable, other_failure}
use polyglot_ticketing_v.World.{World, on_tickets, map_err}
use polyglot_ticketing_v.Orders.Model as Orders
use polyglot_ticketing_v.Orders.Projection.{ticket_row, validate_projection}
use polyglot_ticketing_v.Tickets.Repository.ById.{is_unread, update_by_text, refuse_id_same}
use polyglot_ticketing_v.Tickets.Model.{Error, Ticket, TicketRow, TicketsDb}
use polyglot_ticketing_v.Tickets.Repository.{update_with_idempotency}
use polyglot_ticketing_v.Tickets.Repository.Recorded.{TicketRecorded, Draft, From}
use polyglot_ticketing_v.Tickets.Repository.Snapshots.{update_with_idempotency-Answers}
use polyglot_ticketing_v.Tickets.Repository.Edited.{Answer, update_with_idempotency-Answer}
use polyglot_ticketing_v.Reservation.Later.{Holding, map_err-Holding}
use polyglot_ticketing_v.Creation.TicketCreation.{
  UpdateTicketInput, bad_fields, update_failure, persist_ticket_update, project_ticket_to_orders,
  TicketFlow, finish, persist, persist_update, project, update_ticket_handler, follow, advance,
}
use polyglot_ticketing_v.Creation.TicketCreation.Projected.{as_input}
use polyglot_ticketing_v.Creation.TicketCreation.Handed.{
  Handed, project_ticket_to_orders-Handed, project_ticket_to_orders-past,
  project_ticket_to_orders-tickets,
}
use polyglot_ticketing_v.Creation.TicketCreation.History.Synced.{Synced}
use polyglot_ticketing_v.Creation.TicketCreation.UpdateWorkflow.Stages.{
  copy_of, IsLevel, Stage, IsCertain, update_input, Edited-Stage,
}

module _ (uuid_parse : Text → Option ℕ) (uuid_text : ℕ → Text)
    (uuid_law : (id : ℕ) → uuid_parse (uuid_text id) ≡ some id) (origin : ℕ → Draft)
    (ticket : ℕ) where
  abbrev Level : World → Type 0
  Level w = IsLevel ticket w

  abbrev At : Ticket → World → Type 0
  At t w = Stage uuid_parse uuid_text ticket t w

  answered-At :
      (input : UpdateTicketInput) (w : World) (r : Result Error Ticket) (db : TicketsDb)
      (faults : List Fault)
      → bad_fields input.title input.price input.user_id ≡ false
      → Level w
      → Good (From origin w.tickets) TicketRecorded r db
      → Answer ticket (update_input input) w.tickets r db
      → Holding At (r, record { tables = record w { tickets = db }; faults = faults })
  answered-At input w (ok t) db faults good level recorded edited =
      Edited-Stage uuid_parse uuid_text uuid_law ticket input w t db good level recorded.1 edited
  answered-At input w (err e) db faults good level recorded edited = tt

  -- An attempt to persist an update, where Orders' copy is level.
  persist_ticket_update-At :
      (input : UpdateTicketInput) (s : Session World)
      → uuid_parse input.id ≡ some ticket
      → Synced origin s.tables
      → Level s.tables
      → Holding At (persist_ticket_update uuid_parse uuid_text input s)
  unfolding persist_ticket_update update_by_text
  persist_ticket_update-At input s parsed synced level =
      elim (Bool-cases (
        not (is_some (uuid_parse input.id))
        || bad_fields input.title input.price input.user_id
        || text_eq input.idempotency_key [])) [
          | inl bad ↦ rw bad tt
          | inr good ↦
              let same : ticket ≡ elim (uuid_parse input.id) [ none ↦ 0 | some v ↦ v ] =
                rw parsed refl in
              let fields : bad_fields input.title input.price input.user_id ≡ false =
                ground (arith, good) in
              let edit =
                update_with_idempotency ticket (update_input input)
                  (record { tables = s.tables.tickets; faults = s.faults }) in
              let held : Holding At (
                  map_err update_failure
                    (on_tickets (update_with_idempotency ticket (update_input input))) s) =
                map_err-Holding At update_failure _ _ (
                  answered-At input s.tables edit.0 edit.1.tables edit.1.faults fields level
                    ((update_with_idempotency-Answers origin s.tables.tickets ticket _).holds _
                      (record { recorded = synced.recorded; onward = λ i v t p r. r }))
                    ((update_with_idempotency-Answer ticket _ s.tables.tickets).holds _ refl)) in
              elim (Bool-cases (is_unread input.id)) [
                | inl unread ↦
                    let (_, _, none_made) = refuse_id_same s.tables.tickets s.faults in
                    rw good (rw unread (rw none_made tt))
                | inr read ↦ rw good (
                    rw read (
                      subst
                        (λ id. Holding At (
                          map_err update_failure
                            (on_tickets (update_with_idempotency id (update_input input))) s))
                        same held))
              ]
        ]

  -- The handler with the lock goes on from here.
  unfoldable pub Held : TicketFlow → World → Type 0
  Held (finish r) w = Level w
  Held (persist input next) w = ⊥
  Held (persist_update input next) w =
      Level w
      × (uuid_parse input.id ≡ some ticket)
      × ((t : Ticket) (u : World) → At t u → Held (next t) u)
  Held (project t next) w = At t w × ((u : World) → Level u → Held next u)

  pub update_ticket_handler-Held :
      (input : UpdateTicketInput) (w : World)
      → uuid_parse input.id ≡ some ticket
      → Level w
      → Held (update_ticket_handler input) w
  unfolding Held update_ticket_handler
  update_ticket_handler-Held input w parsed level = (level, parsed, λ t u at. (at, λ v h. h))

  -- What follows an attempt, by what it answered.
  follow-Held :
      {A : Type 0} (again : TicketFlow) (next : A → TicketFlow) (r : Result Failure A) (w : World)
      → ((a : A) → r ≡ ok a → Held (next a) w)
      → ((e : FailureType) → r ≡ err (non_retryable e) → Level w)
      → (r ≡ err other_failure → Held again w)
      → Held (follow again next r) w
  unfolding Held
  follow-Held again next (ok a) w good fatal retry = good a refl
  follow-Held again next (err (non_retryable e)) w good fatal retry = fatal e refl
  follow-Held again next (err other_failure) w good fatal retry = retry refl

  -- What the attempt to project the version that Orders' copy is behind comes to.
  Handed-Held :
      (t : Ticket) (next : TicketFlow) (row : TicketRow) (old : Orders.TicketRow)
      (r : Result Failure (Unit {0})) (u : World)
      → t.id ≡ ticket
      → lookup ticket u.tickets.tickets ≡ some row
      → suc_ℤ old.aggregate_version ≡ pos row.aggregate_version
      → ticket_row (as_input t) ≡ copy_of row
      → validate_projection uuid_parse (uuid_text t.id) (as_input t) ≡ true
      → Handed ticket old (copy_of row) r u.orders
      → ((v : World) → Level v → Held next v)
      → Held (follow (project t next) (λ _. next) r) u
  unfolding Held
  Handed-Held t next row old (ok _) u at here step same valid h on = on u (row, here, h)
  Handed-Held t next row old (err (non_retryable _)) u at here step same valid h on = absurd h
  Handed-Held t next row old (err other_failure) u at here step same valid (inl h) on =
      ((at, inr (row, old, here, h, step, same, valid)), on)
  Handed-Held t next row old (err other_failure) u at here step same valid (inr h) on =
      let version : pos t.aggregate_version ≡ pos row.aggregate_version =
        ap (λ (x : Orders.TicketRow). x.aggregate_version) same in
      ((at, inl (row, here, h, ground arith)), on)

  -- One attempt at the activity that the handler with the lock waits for.
  pub advance-Held :
      (faults : List Fault) (f : TicketFlow) (w : World)
      → IsCertain uuid_parse uuid_text f faults w
      → Synced origin w
      → Held f w
      → let (g, u) = advance uuid_parse uuid_text 0 faults f w in Held g u
  unfolding advance Held
  advance-Held faults (finish r) w certain synced h = h
  advance-Held faults (persist input next) w certain synced h = absurd h
  advance-Held faults (persist_update input next) w certain synced (level, parsed, on) =
      let s : Session World = record { tables = w; faults = faults } in
      let call = persist_ticket_update uuid_parse uuid_text input s in
      let at : Holding At call = persist_ticket_update-At input s parsed synced level in
      follow-Held (persist_update input next) next call.0 call.1.tables
        (λ t e. on t call.1.tables (subst (λ x. Holding At (x, call.1)) e at))
        (λ e failed. subst Level (sym (certain (non_retryable e) failed)) level)
        (λ failed.
          subst (λ u. Held (persist_update input next) u) (sym (certain other_failure failed))
            (level, parsed, on))
  advance-Held faults (project t next) w certain synced ((at, inl (row, here, copied, past)), on) =
      let s : Session World = record { tables = w; faults = faults } in
      let call = project_ticket_to_orders uuid_parse uuid_text t s in
      let there : lookup t.id w.orders.tickets ≡ some (copy_of row) =
        ap (λ i. lookup i w.orders.tickets) at ∙ copied in
      let here' : lookup ticket call.1.tables.tickets.tickets ≡ some row =
        ap (λ (u : TicketsDb). lookup ticket u.tickets)
          (project_ticket_to_orders-tickets uuid_parse uuid_text uuid_law t (copy_of row) s there)
        ∙ here in
      let copied' : lookup ticket call.1.tables.orders.tickets ≡ some (copy_of row) =
        ap (λ i. lookup i call.1.tables.orders.tickets) (sym at)
        ∙ project_ticket_to_orders-past uuid_parse uuid_text uuid_law t (copy_of row) s there
            row.aggregate_version refl past in
      follow-Held (project t next) (λ _. next) call.0 call.1.tables
        (λ _ _. on call.1.tables (row, here', copied')) (λ _ _. (row, here', copied'))
        (λ _. ((at, inl (row, here', copied', past)), on))
  advance-Held faults (project t next) w certain synced
        ((at, inr (row, old, here, copied, step, same, valid)), on) =
      let s : Session World = record { tables = w; faults = faults } in
      let call = project_ticket_to_orders uuid_parse uuid_text t s in
      let there : lookup t.id w.orders.tickets ≡ some old =
        ap (λ i. lookup i w.orders.tickets) at ∙ copied in
      let here' : lookup ticket call.1.tables.tickets.tickets ≡ some row =
        ap (λ (u : TicketsDb). lookup ticket u.tickets)
          (project_ticket_to_orders-tickets uuid_parse uuid_text uuid_law t old s there)
        ∙ here in
      let version : pos row.aggregate_version ≡ pos t.aggregate_version =
        ap (λ (x : Orders.TicketRow). x.aggregate_version) (sym same) in
      let handed : Handed ticket old (ticket_row (as_input t)) call.0 call.1.tables.orders =
        subst (λ i. Handed i old (ticket_row (as_input t)) call.0 call.1.tables.orders) at
          (project_ticket_to_orders-Handed uuid_parse uuid_text uuid_law t old s there valid
            (step ∙ version)) in
      Handed-Held t next row old call.0 call.1.tables at here' step same valid
        (subst (λ x. Handed ticket old x call.0 call.1.tables.orders) same handed) on
