-- ===== src/Reservation/System/Progress.antt =====
-- One step of a workflow: it respects the claims, and what is left of the workflow is safe.
use polyglot_ticketing_v.Base.{
  ℕ, ◌≡◌, List, Option, none, some, Bool-cases, leb, inl, inr, Text, Result, ok, err,
}
use polyglot_ticketing_v.Base.Db.{Fault, healthy, rejected, lost, Session, Db, next_fault}
use polyglot_ticketing_v.Base.Temporal.{Failure, non_retryable, other_failure}
use polyglot_ticketing_v.World.{World}
use polyglot_ticketing_v.Reservation.Activities
use polyglot_ticketing_v.Reservation.Activities.{ExpireInput}
use polyglot_ticketing_v.Reservation.Activities.Steps.{
  reserve_order-Moves, cancel_order-Moves, cancel_order-Holding, expire_order-Moves,
  expire_order-Holding, resolve_payment-Moves, resolve_payment-Holding, claim_ticket-Moves,
  claim_ticket-Holding, release_ticket-Moves, OrderCanceled, ExpiryCanceled, ResolutionCanceled,
  Claims,
}
use polyglot_ticketing_v.Reservation.Workflow.{
  Flow, finish, reserve_order, claim_ticket, cancel_order, expire_order, resolve_payment,
  release_ticket, start_child, sleep_until,
}
use polyglot_ticketing_v.Reservation.Workflow.Starts.{expire_order_workflow-Safe}
use polyglot_ticketing_v.Reservation.Later.{Later, Later-refl, Moves, Holding}
use polyglot_ticketing_v.Reservation.Promise.{Safe, Safe-Later}
use polyglot_ticketing_v.Reservation.System.{Moved, moved, follow, attempt, spawn, advance}

abbrev pub ChildSafe : Option Flow → World → Type 0
ChildSafe none w = Unit
ChildSafe (some f) w = Safe f w

pub record Advanced (w : World) (m : Moved) : Type 0 where
  pub later : Later w m.world
  pub rest_safe : Safe m.rest m.world
  pub child_safe : ChildSafe m.child m.world

-- Nothing but the workflow moves.
moved-Advanced : (f : Flow) (w : World) → Safe f w → Advanced w (moved f w)
moved-Advanced f w safe = record { later = Later-refl w; rest_safe = safe; child_safe = tt }

-- An activity holds no fact but that the world goes on.
abbrev pub Anything : {A : Type 0} → A → World → Type 0
Anything a w = Unit

any-Holding :
    {E A : Type 0} (r : Result E A) (s : Session World) → Holding (Anything {A = A}) (r, s)
any-Holding (ok a) s = tt
any-Holding (err e) s = tt

pub Anything-Holding :
    {E A : Type 0} (call : Db World E A) (s : Session World) → Holding (Anything {A = A}) (call s)
Anything-Holding call s = any-Holding (call s).0 (call s).1

abbrev session : List Fault → World → Session World
session faults w = record { tables = w; faults = faults }

module _ {A : Type 0} (Q : A → World → Type 0) (again : Flow) (next : A → Flow) (w : World)
    (safe : Safe again w) (on : (a : A) (u : World) → Later w u → Q a u → Safe (next a) u) where
  follow-Safe :
      (r : Result Failure A) (s : Session World)
      → Later w s.tables
      → Holding Q (r, s)
      → Safe (follow again next r) s.tables
  unfolding Safe
  follow-Safe (ok a) s l h = on a s.tables l h
  follow-Safe (err (non_retryable t)) s l h = tt
  follow-Safe (err other_failure) s l h = Safe-Later again w s.tables l safe

  attempt-Advanced :
      (activity : Db World Failure A) (faults : List Fault)
      → Moves activity (record { tables = w; faults = faults })
      → Holding Q (activity (record { tables = w; faults = faults }))
      → Advanced w (attempt activity again next faults w)
  attempt-Advanced activity faults l h =
      let s : Session World = record { tables = w; faults = faults } in
      record {
        later = l;
        rest_safe = follow-Safe (activity s).0 (activity s).1 l h;
        child_safe = tt;
      }

spawn-Advanced :
    (fault : Fault) (input : ExpireInput) (next : Flow) (w : World)
    → Safe next w
    → Advanced w (spawn fault input next w)
unfolding Safe
spawn-Advanced healthy input next w safe = record {
  later = Later-refl w;
  rest_safe = safe;
  child_safe = expire_order_workflow-Safe input w;
}
spawn-Advanced (rejected _) input next w safe = moved-Advanced _ w tt
spawn-Advanced (lost _) input next w safe = moved-Advanced _ w tt

module _ (uuid_parse : Text → Option ℕ) (uuid_text : ℕ → Text)
    (uuid_law : (id : ℕ) → uuid_parse (uuid_text id) ≡ some id) where
  pub advance-Advanced :
      (now random_id : ℕ) (faults : List Fault) (f : Flow) (w : World)
      → Safe f w
      → Advanced w (advance uuid_parse uuid_text now random_id faults f w)
  unfolding advance Safe
  advance-Advanced now random_id faults (finish r) w safe = moved-Advanced (finish r) w safe
  advance-Advanced now random_id faults (reserve_order input next) w safe =
      let call = Activities.reserve_order random_id input in
      let s = session faults w in
      attempt-Advanced Anything (reserve_order input next) next w safe (λ r u l _. safe r u l) call
        faults (reserve_order-Moves random_id input s) (Anything-Holding call s)
  advance-Advanced now random_id faults (claim_ticket o next) w safe =
      let call = Activities.claim_ticket uuid_parse uuid_text o in
      let s = session faults w in
      attempt-Advanced (λ _. Claims o) (claim_ticket o next) (λ (u : Unit {0}). next) w safe
        (λ _ u l c. safe u l c) call faults (claim_ticket-Moves uuid_parse uuid_text uuid_law o s)
        (claim_ticket-Holding uuid_parse uuid_text uuid_law o s)
  advance-Advanced now random_id faults (cancel_order input next) w safe =
      let s = session faults w in
      attempt-Advanced OrderCanceled (cancel_order input next) next w safe safe
        (Activities.cancel_order input) faults (cancel_order-Moves input s)
        (cancel_order-Holding input s)
  advance-Advanced now random_id faults (expire_order id next) w safe =
      let s = session faults w in
      attempt-Advanced ExpiryCanceled (expire_order id next) next w safe safe
        (Activities.expire_order now id) faults (expire_order-Moves now id s)
        (expire_order-Holding now id s)
  advance-Advanced now random_id faults (resolve_payment input next) w safe =
      let s = session faults w in
      attempt-Advanced ResolutionCanceled (resolve_payment input next) next w safe safe
        (Activities.resolve_payment input) faults (resolve_payment-Moves input s)
        (resolve_payment-Holding input s)
  advance-Advanced now random_id faults (release_ticket o next) w safe =
      let call = Activities.release_ticket uuid_parse uuid_text o in
      let s = session faults w in
      attempt-Advanced Anything (release_ticket o next) (λ (u : Unit {0}). next) w safe
        (λ _ u l _. safe.1 u l) call faults
        (release_ticket-Moves uuid_parse uuid_text uuid_law o s safe.0) (Anything-Holding call s)
  advance-Advanced now random_id faults (start_child input next) w safe =
      spawn-Advanced (next_fault faults) input next w (safe w (Later-refl w))
  advance-Advanced now random_id faults (sleep_until deadline next) w safe =
      elim (Bool-cases (leb deadline now)) [
        | inl due ↦ rw due (moved-Advanced next w (safe w (Later-refl w)))
        | inr early ↦ rw early (moved-Advanced (sleep_until deadline next) w safe)
      ]
