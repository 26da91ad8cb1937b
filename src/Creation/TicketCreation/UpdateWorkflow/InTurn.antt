-- ===== src/Creation/TicketCreation/UpdateWorkflow/InTurn.antt =====
-- What the lock keeps at each step of a workflow of updates: Orders' copy of the ticket is level with
-- Tickets, or one version behind while the handler that has the lock projects it.
use mathlib.Core.Path.{subst}
use polyglot_ticketing_v.Base.{
  ℕ, ◌≡◌, refl, sym, ap, ◌∙◌, List, Option, none, some, Text, leb, ok, err, inl, inr, Bool-cases,
  arith,
}
use polyglot_ticketing_v.Base.Int.{pos}
use polyglot_ticketing_v.Base.Lists.{get_elem?, All, get_elem?-All, erase-All}
use polyglot_ticketing_v.Base.Db.{Fault}
use polyglot_ticketing_v.World.{World}
use polyglot_ticketing_v.Orders.Model as Orders
use polyglot_ticketing_v.Tickets.Model.{Ticket}
use polyglot_ticketing_v.Tickets.Repository.Recorded.{Draft}
use polyglot_ticketing_v.Creation.TicketCreation.{
  UpdateTicketInput, TicketFlow, finish, persist, persist_update, project, advance,
}
use polyglot_ticketing_v.Creation.TicketCreation.UpdateWorkflow.{
  UpdateRun, locked_by, lock_if, unlock_if_through, continue_as_new, hold_on,
  max_updates_per_workflow,
}
use polyglot_ticketing_v.Creation.TicketCreation.UpdateWorkflow.Stages.{IsLevel, Stage}
use polyglot_ticketing_v.Creation.TicketCreation.UpdateWorkflow.Turns.{
  Held, update_ticket_handler-Held, advance-Held,
}
use polyglot_ticketing_v.Creation.TicketCreation.History.Synced.{Synced}
use polyglot_ticketing_v.Creation.TicketCreation.History.Ready.{RunReady}
use polyglot_ticketing_v.Creation.TicketCreation.UpdateWorkflow.Steps.{
  Point, Elsewhere, IsCertainHold,
}

module _ (uuid_parse : Text → Option ℕ) (uuid_text : ℕ → Text)
    (uuid_law : (id : ℕ) → uuid_parse (uuid_text id) ≡ some id) (origin : ℕ → Draft)
    (ticket : ℕ) where
  abbrev pub IsOfTicket : UpdateTicketInput → Type 0
  IsOfTicket input = uuid_parse input.id ≡ some ticket

  abbrev pub AllOfTicket : List UpdateTicketInput → Type 0
  AllOfTicket inputs = All IsOfTicket inputs

  -- The handler with the lock, or nobody.
  unfoldable pub Holds : Option TicketFlow → World → Type 0
  Holds none w = IsLevel ticket w
  Holds (some f) w = Held uuid_parse uuid_text uuid_law origin ticket f w

  abbrev pub IsMoved : World → World → Type 0
  IsMoved w u = Elsewhere uuid_parse uuid_text origin ticket w u

  -- What the lock keeps.
  pub record IsInTurn (p : Point) : Type 0 where
    pub synced : Synced origin p.world
    pub ready : RunReady uuid_parse uuid_text uuid_law origin p.updates p.world.tickets
    pub waiting : AllOfTicket p.updates.waiting
    pub held : Holds p.updates.holder p.world

  IsLevel-Elsewhere : (w u : World) → IsMoved w u → IsLevel ticket w → IsLevel ticket u
  IsLevel-Elsewhere w u e (row, here, copied) =
      let (row', here', same) = e.same_row row here in
      (row', here', e.same_copy ∙ copied ∙ ap some (sym same))

  Stage-Elsewhere :
      (t : Ticket) (w u : World)
      → IsMoved w u
      → Stage uuid_parse uuid_text ticket t w
      → Stage uuid_parse uuid_text ticket t u
  Stage-Elsewhere t w u e (at, inl (row, here, copied, past)) =
      let (row', here', same) = e.same_row row here in
      let version : pos row'.aggregate_version ≡ pos row.aggregate_version =
        ap (λ (x : Orders.TicketRow). x.aggregate_version) same in
      (at, inl (row', here', e.same_copy ∙ copied ∙ ap some (sym same), ground arith))
  Stage-Elsewhere t w u e (at, inr (row, old, here, copied, step, is, valid)) =
      let (row', here', same) = e.same_row row here in
      let version : pos row'.aggregate_version ≡ pos row.aggregate_version =
        ap (λ (x : Orders.TicketRow). x.aggregate_version) same in
      (at, inr (row', old, here', e.same_copy ∙ copied, step ∙ sym version, is ∙ sym same, valid))

  Held-Elsewhere :
      (f : TicketFlow) (w u : World)
      → IsMoved w u
      → Held uuid_parse uuid_text uuid_law origin ticket f w
      → Held uuid_parse uuid_text uuid_law origin ticket f u
  unfolding Held
  Held-Elsewhere (finish r) w u e h = IsLevel-Elsewhere w u e h
  Held-Elsewhere (persist input next) w u e h = h
  Held-Elsewhere (persist_update input next) w u e h = (IsLevel-Elsewhere w u e h.0, h.1, h.2)
  Held-Elsewhere (project t next) w u e h = (Stage-Elsewhere t w u e h.0, h.1)

  pub Holds-Elsewhere :
      (holder : Option TicketFlow) (w u : World) → IsMoved w u → Holds holder w → Holds holder u
  unfolding Holds
  Holds-Elsewhere none w u e h = IsLevel-Elsewhere w u e h
  Holds-Elsewhere (some f) w u e h = Held-Elsewhere f w u e h

  unlock-Holds :
      (f : TicketFlow) (r : UpdateRun) (w : World)
      → Held uuid_parse uuid_text uuid_law origin ticket f w
      → Holds (unlock_if_through f r).holder w
  unfolding Holds Held unlock_if_through
  unlock-Holds (finish (ok t)) r w h = h
  unlock-Holds (finish (err e)) r w h = h
  unlock-Holds (persist input next) r w h = h
  unlock-Holds (persist_update input next) r w h = h
  unlock-Holds (project t next) r w h = h

  unlock-waiting : (f : TicketFlow) (r : UpdateRun) → (unlock_if_through f r).waiting ≡ r.waiting
  unfolding unlock_if_through
  unlock-waiting (finish (ok t)) r = refl
  unlock-waiting (finish (err e)) r = refl
  unlock-waiting (persist input next) r = refl
  unlock-waiting (persist_update input next) r = refl
  unlock-waiting (project t next) r = refl

  pub hold_on-Holds :
      (faults : List Fault) (holder : Option TicketFlow) (r : UpdateRun) (w : World)
      → r.holder ≡ holder
      → IsCertainHold uuid_parse uuid_text origin ticket holder faults w
      → Synced origin w
      → Holds holder w
      → let (r', u) = hold_on uuid_parse uuid_text faults holder r w in
        Holds r'.holder u × (r'.waiting ≡ r.waiting)
  unfolding Holds
  hold_on-Holds faults none r w e certain synced h = (subst (λ o. Holds o w) (sym e) h, refl)
  hold_on-Holds faults (some f) r w e certain synced h =
      let g = advance uuid_parse uuid_text 0 faults f w in
      (
        unlock-Holds g.0 r g.1
            (advance-Held uuid_parse uuid_text uuid_law origin ticket faults f w certain synced h),
        unlock-waiting g.0 r,
      )

  locked_by-InTurn :
      (i : ℕ) (next : Option UpdateTicketInput) (r : UpdateRun) (w : World)
      → get_elem? r.waiting i ≡ next
      → AllOfTicket r.waiting
      → IsLevel ticket w
      → r.holder ≡ none
      → AllOfTicket (locked_by i next r).waiting × Holds (locked_by i next r).holder w
  unfolding Holds
  locked_by-InTurn i none r w e all level free = (all, subst (λ o. Holds o w) (sym free) level)
  locked_by-InTurn i (some input) r w e all level free = (
    erase-All IsOfTicket r.waiting i all,
    update_ticket_handler-Held uuid_parse uuid_text uuid_law origin ticket input w
        (get_elem?-All IsOfTicket r.waiting i input e all) level,
  )

  pub lock_if-InTurn :
      (holder : Option TicketFlow) (i : ℕ) (r : UpdateRun) (w : World)
      → r.holder ≡ holder
      → AllOfTicket r.waiting
      → Holds holder w
      → AllOfTicket (lock_if holder i r).waiting × Holds (lock_if holder i r).holder w
  unfolding Holds
  lock_if-InTurn none i r w e all h = locked_by-InTurn i (get_elem? r.waiting i) r w refl all h e
  lock_if-InTurn (some f) i r w e all h = (all, subst (λ o. Holds o w) (sym e) h)

  pub renewed-InTurn :
      (r : UpdateRun) (w : World)
      → r.holder ≡ none
      → AllOfTicket r.waiting
      → Holds r.holder w
      → AllOfTicket (continue_as_new r).waiting × Holds (continue_as_new r).holder w
  unfolding Holds continue_as_new
  renewed-InTurn r w free all h =
      elim (Bool-cases (leb max_updates_per_workflow r.completed_updates)) [
        | inl due ↦ rw due (tt, subst (λ o. Holds o w) free h)
        | inr early ↦ rw early (all, h)
      ]
