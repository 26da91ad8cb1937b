-- ===== src/Creation/TicketCreation/UpdateWorkflow/Levels.antt =====
-- How far Orders is behind at each step of a workflow of updates.
use mathlib.Core.Path.{subst}
use polyglot_ticketing_v.Base.{ℕ, ◌≡◌, refl, sym, List, Option, none, some, Text, inl, inr}
use polyglot_ticketing_v.Base.Lists.{++-All}
use polyglot_ticketing_v.World.{World}
use polyglot_ticketing_v.Payments.Model.{PaymentsDb}
use polyglot_ticketing_v.Tickets.Repository.Recorded.{Draft}
use polyglot_ticketing_v.Creation.TicketCreation.{
  TicketFlow, finish, persist, persist_update, project,
}
use polyglot_ticketing_v.Creation.TicketCreation.UpdateWorkflow.{new_run, accept, lock, carry_on}
use polyglot_ticketing_v.Creation.TicketCreation.UpdateWorkflow.Stages.{copy_of, IsLevel}
use polyglot_ticketing_v.Creation.TicketCreation.UpdateWorkflow.Turns.{Held}
use polyglot_ticketing_v.Creation.TicketCreation.History.{Event, idle, run}
use polyglot_ticketing_v.Creation.TicketCreation.History.Synced.{Synced}
use polyglot_ticketing_v.Creation.TicketCreation.History.Ready.{
  HolderReady-Onward, accept-RunReady, lock-RunReady, continue_as_new-RunReady, carry_on-Ready,
}
use polyglot_ticketing_v.Creation.TicketCreation.History.Copies.{nothing_yet, run-Synced}
use polyglot_ticketing_v.Creation.TicketCreation.UpdateWorkflow.Steps.{
  Point, Turn, accepted, locked, carried, renewed, elsewhere, Turns, stay, go, IsInStep,
}
use polyglot_ticketing_v.Creation.TicketCreation.UpdateWorkflow.InTurn.{
  IsOfTicket, AllOfTicket, Holds, IsInTurn, Holds-Elsewhere, hold_on-Holds, lock_if-InTurn,
  renewed-InTurn,
}

module _ (uuid_parse : Text → Option ℕ) (uuid_text : ℕ → Text)
    (uuid_law : (id : ℕ) → uuid_parse (uuid_text id) ≡ some id) (origin : ℕ → Draft)
    (ticket : ℕ) where
  turn-IsInTurn :
      (p q : Point)
      → Turn uuid_parse uuid_text origin ticket p q
      → IsInTurn uuid_parse uuid_text uuid_law origin ticket p
      → IsInTurn uuid_parse uuid_text uuid_law origin ticket q
  unfolding Holds accept lock carry_on
  turn-IsInTurn _ _ (accepted r w input parsed) h = record {
    synced = h.synced;
    ready = accept-RunReady uuid_parse uuid_text uuid_law origin input r w.tickets h.ready;
    waiting =
        ++-All (IsOfTicket uuid_parse uuid_text uuid_law origin ticket) r.waiting input parsed
          h.waiting;
    held = h.held;
  }
  turn-IsInTurn _ _ (locked r w i) h =
      let (all, held) =
        lock_if-InTurn uuid_parse uuid_text uuid_law origin ticket r.holder i r w refl h.waiting
          h.held in
      record {
        synced = h.synced;
        ready = lock-RunReady uuid_parse uuid_text uuid_law origin i r w.tickets h.ready;
        waiting = all;
        held = held;
      }
  turn-IsInTurn _ _ (carried r w faults certain) h =
      let (kept, ready) =
        carry_on-Ready uuid_parse uuid_text uuid_law origin faults r w h.ready h.synced in
      let (held, same) =
        hold_on-Holds uuid_parse uuid_text uuid_law origin ticket faults r.holder r w refl certain
          h.synced h.held in
      record {
        synced = kept.synced;
        ready = ready;
        waiting =
            subst (AllOfTicket uuid_parse uuid_text uuid_law origin ticket) (sym same) h.waiting;
        held = held;
      }
  turn-IsInTurn _ _ (renewed r w free) h =
      let (all, held) =
        renewed-InTurn uuid_parse uuid_text uuid_law origin ticket r w free h.waiting h.held in
      record {
        synced = h.synced;
        ready = continue_as_new-RunReady uuid_parse uuid_text uuid_law origin r w.tickets h.ready;
        waiting = all;
        held = held;
      }
  turn-IsInTurn _ _ (elsewhere r w u e) h = record {
    synced = e.kept.synced;
    ready =
        HolderReady-Onward uuid_parse uuid_text uuid_law origin r.holder w.tickets u.tickets
          e.kept.onward h.ready;
    waiting = h.waiting;
    held = Holds-Elsewhere uuid_parse uuid_text uuid_law origin ticket r.holder w u e h.held;
  }

  Turns-IsInTurn :
      (p q : Point)
      → Turns uuid_parse uuid_text origin ticket p q
      → IsInTurn uuid_parse uuid_text uuid_law origin ticket p
      → IsInTurn uuid_parse uuid_text uuid_law origin ticket q
  Turns-IsInTurn _ _ (stay p) h = h
  Turns-IsInTurn _ _ (go p q r t ts) h = Turns-IsInTurn q r ts (turn-IsInTurn p q t h)

  Level-IsInStep :
      (holder : Option TicketFlow) (w : World) → IsLevel ticket w → IsInStep ticket holder w
  Level-IsInStep holder w (row, here, copied) = (row, copy_of row, here, copied, inl refl)

  Held-IsInStep :
      (f : TicketFlow) (w : World)
      → Held uuid_parse uuid_text uuid_law origin ticket f w
      → IsInStep ticket (some f) w
  unfolding Held
  Held-IsInStep (finish r) w h = Level-IsInStep _ w h
  Held-IsInStep (persist input next) w h = absurd h
  Held-IsInStep (persist_update input next) w h = Level-IsInStep _ w h.0
  Held-IsInStep (project t next) w ((at, inl (row, here, copied, past)), on) =
      (row, copy_of row, here, copied, inl refl)
  Held-IsInStep (project t next) w ((at, inr (row, old, here, copied, step, is, valid)), on) =
      (row, old, here, copied, inr (step, (project t next, refl)))

  Holds-IsInStep :
      (holder : Option TicketFlow) (w : World)
      → Holds uuid_parse uuid_text uuid_law origin ticket holder w
      → IsInStep ticket holder w
  unfolding Holds
  Holds-IsInStep none w h = Level-IsInStep none w h
  Holds-IsInStep (some f) w h = Held-IsInStep f w h

  new_run-IsInTurn :
      (w : World)
      → Synced origin w
      → IsLevel ticket w
      → IsInTurn uuid_parse uuid_text uuid_law origin ticket
          (record { updates = new_run; world = w })
  unfolding Holds
  new_run-IsInTurn w synced level = record {
    synced = synced;
    ready = tt;
    waiting = tt;
    held = level;
  }

  -- If UUIDs go through their texts unchanged: a workflow of updates starts behind any history of the
  -- tickets after which Orders' copy of the ticket is Tickets' row, and has every update of that ticket.
  -- Its handlers are accepted, take the lock and go on in any order, with whatever goes wrong in each
  -- attempt, but for an attempt to persist that fails although its edit is committed; it starts afresh
  -- with no handler at work; and others leave the ticket's copy, and its row but for its reservation, as
  -- they are. Then at each step Orders' copy is Tickets' row, or it is one version behind and a handler
  -- has the lock.
  pub Turns-IsInStep :
      (payments : PaymentsDb) (es : List Event)
      → let w = (run uuid_parse uuid_text origin es (idle (nothing_yet payments))).world in
        IsLevel ticket w
        → (q : Point)
        → Turns uuid_parse uuid_text origin ticket (record { updates = new_run; world = w }) q
        → IsInStep ticket q.updates.holder q.world
  Turns-IsInStep payments es level q ts =
      let synced = run-Synced uuid_parse uuid_text uuid_law origin payments es in
      Holds-IsInStep q.updates.holder q.world
        (Turns-IsInTurn _ q ts (new_run-IsInTurn _ synced level)).held
