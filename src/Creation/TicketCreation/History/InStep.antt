-- ===== src/Creation/TicketCreation/History/InStep.antt =====
-- All workflows of tickets that have been started are ready, and the databases of Tickets and of
-- Orders in step: what a call or an attempt keeps of that.
use polyglot_ticketing_v.Base.{ℕ, ◌≡◌, List, Option, some, Option-cases, Text, inl, inr}
use polyglot_ticketing_v.Base.Table.{Table}
use polyglot_ticketing_v.Base.Lists.{get_elem?, All, get_elem?-All, set-All, All-map}
use polyglot_ticketing_v.Base.Db.{Fault, Db}
use polyglot_ticketing_v.Base.Db.Keeps.{Keeps}
use polyglot_ticketing_v.World.{World, on_orders, on_tickets}
use polyglot_ticketing_v.Orders.Model.{OrdersDb, OrderRow}
use polyglot_ticketing_v.Tickets.Model.{TicketsDb}
use polyglot_ticketing_v.Tickets.Repository.Recorded.{Onward, Draft, From}
use polyglot_ticketing_v.Creation.TicketCreation.{TicketFlow}
use polyglot_ticketing_v.Creation.TicketCreation.UpdateWorkflow.{UpdateRun}
use polyglot_ticketing_v.Creation.TicketCreation.History.{
  System, behind, creation_moved, run_moved, on_run,
}
use polyglot_ticketing_v.Creation.TicketCreation.History.Ready.{
  Ready, RunReady, Ready-Onward, HolderReady-Onward,
}
use polyglot_ticketing_v.Creation.TicketCreation.History.Synced.{
  IsCopied, Synced, Kept, Kept-refl, on_tickets-Kept, on_orders-Kept,
}

module _ (uuid_parse : Text → Option ℕ) (uuid_text : ℕ → Text)
    (uuid_law : (id : ℕ) → uuid_parse (uuid_text id) ≡ some id) (origin : ℕ → Draft) where
  -- All that has been started is ready, and the databases are in step.
  pub record IsReady (sys : System) : Type 0 where
    pub synced : Synced origin sys.world
    pub creations_ready :
        All (λ f. Ready uuid_parse uuid_text uuid_law origin f sys.world.tickets) sys.creations
    pub updates_ready :
        All (λ r. RunReady uuid_parse uuid_text uuid_law origin r sys.world.tickets) sys.updates

  AllReady-Onward :
      (fs : List TicketFlow) (a b : TicketsDb)
      → Onward a b
      → All (λ f. Ready uuid_parse uuid_text uuid_law origin f a) fs
      → All (λ f. Ready uuid_parse uuid_text uuid_law origin f b) fs
  AllReady-Onward fs a b on =
      All-map (λ f. Ready uuid_parse uuid_text uuid_law origin f a)
        (λ f. Ready uuid_parse uuid_text uuid_law origin f b)
        (λ f. Ready-Onward uuid_parse uuid_text uuid_law origin f a b on) fs

  AllRunReady-Onward :
      (rs : List UpdateRun) (a b : TicketsDb)
      → Onward a b
      → All (λ r. RunReady uuid_parse uuid_text uuid_law origin r a) rs
      → All (λ r. RunReady uuid_parse uuid_text uuid_law origin r b) rs
  AllRunReady-Onward rs a b on =
      All-map (λ r. RunReady uuid_parse uuid_text uuid_law origin r a)
        (λ r. RunReady uuid_parse uuid_text uuid_law origin r b)
        (λ r. HolderReady-Onward uuid_parse uuid_text uuid_law origin r.holder a b on) rs

  -- A call that no workflow makes.
  moved-IsReady :
      (sys : System) (w : World)
      → Kept origin sys.world w
      → IsReady sys
      → IsReady (record sys { world = w })
  moved-IsReady sys w kept h = record {
    synced = kept.synced;
    creations_ready = AllReady-Onward sys.creations _ _ kept.onward h.creations_ready;
    updates_ready = AllRunReady-Onward sys.updates _ _ kept.onward h.updates_ready;
  }

  pub creation_moved-IsReady :
      (i : ℕ) (sys : System) (f : TicketFlow) (w : World)
      → Kept origin sys.world w
      → Ready uuid_parse uuid_text uuid_law origin f w.tickets
      → IsReady sys
      → IsReady (creation_moved i sys (f, w))
  creation_moved-IsReady i sys f w kept ready h =
      let moved = moved-IsReady sys w kept h in
      record {
        synced = moved.synced;
        creations_ready =
            set-All (λ f. Ready uuid_parse uuid_text uuid_law origin f w.tickets) sys.creations i f
              ready moved.creations_ready;
        updates_ready = moved.updates_ready;
      }

  pub run_moved-IsReady :
      (i : ℕ) (sys : System) (r : UpdateRun) (w : World)
      → Kept origin sys.world w
      → RunReady uuid_parse uuid_text uuid_law origin r w.tickets
      → IsReady sys
      → IsReady (run_moved i sys (r, w))
  run_moved-IsReady i sys r w kept ready h =
      let moved = moved-IsReady sys w kept h in
      record {
        synced = moved.synced;
        creations_ready = moved.creations_ready;
        updates_ready =
            set-All (λ r. RunReady uuid_parse uuid_text uuid_law origin r w.tickets) sys.updates i r
              ready moved.updates_ready;
      }

  pub on_run-IsReady :
      (i : ℕ) (f : UpdateRun → UpdateRun) (sys : System)
      → ((r : UpdateRun) (db : TicketsDb)
          → RunReady uuid_parse uuid_text uuid_law origin r db
          → RunReady uuid_parse uuid_text uuid_law origin (f r) db)
      → IsReady sys
      → IsReady (on_run i f sys (get_elem? sys.updates i))
  on_run-IsReady i f sys keep h = elim (Option-cases (get_elem? sys.updates i)) [
    | inl nobody ↦ rw nobody h
    | inr (r, found) ↦ rw found (
        run_moved-IsReady i sys (f r) sys.world (Kept-refl origin sys.world h.synced)
          (keep r _ (
            get_elem?-All (λ r. RunReady uuid_parse uuid_text uuid_law origin r sys.world.tickets)
              sys.updates i r found h.updates_ready))
          h)
  ]

  pub orders-IsReady :
      {E A : Type 0} (call : Db OrdersDb E A) (faults : List Fault) (sys : System)
      → Keeps (IsCopied sys.world.tickets) call
      → IsReady sys
      → IsReady (behind (on_orders call) faults sys)
  orders-IsReady call faults sys keeps h =
      moved-IsReady sys _
        (on_orders-Kept origin call (record { tables = sys.world; faults = faults }) keeps h.synced)
        h

  pub tickets-IsReady :
      {E A : Type 0} (call : Db TicketsDb E A) (faults : List Fault) (sys : System)
      → Keeps (From origin sys.world.tickets) call
      → IsReady sys
      → IsReady (behind (on_tickets call) faults sys)
  tickets-IsReady call faults sys keeps h =
      moved-IsReady sys _
        (on_tickets-Kept origin call (record { tables = sys.world; faults = faults }) keeps
          h.synced)
        h

  -- A call of Orders that leaves the copies alone.
  abbrev pub any_orders :
      (tickets : TicketsDb) (orders : Table OrderRow) (db : OrdersDb)
      → IsCopied tickets db
      → IsCopied tickets (record db { orders = orders })
  any_orders tickets orders db h = record { copies = h.copies }
