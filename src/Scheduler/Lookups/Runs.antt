-- ===== src/Scheduler/Lookups/Runs.antt =====
-- In every state that the threads can reach, a worker's completion succeeds.
use puppet_master.Base.{
  ℕ, ◌≡◌, refl, sym, subst, Bool, false, ◌==◌, some, lookup, arith, OnSome-some, get_elem?,
  get_elem?-lt-length,
}
use puppet_master.Core.Status.{Status}
use puppet_master.Scheduler.State.{Impl, SchedulerOptions, ScheduledEvent}
use puppet_master.Scheduler.Dispatch.{complete, dispatch, take_event, take_selected}
use puppet_master.Scheduler.Lifecycle.{
  init, begin_stop, finish_start, finish_stop, enter_worker, leave_worker, continues,
}
use puppet_master.Scheduler.Install.{list_at}
use puppet_master.Scheduler.System.{
  System, Step, register, start, installs_trigger, installs_reader, started, queue, data_arrives,
  worker_enters, worker_takes, worker_completes, worker_leaves, stop, stopped, Reach, here, next,
}
use puppet_master.Scheduler.Invariant.{Reach-Inv, dispatch-Taken, Taken}
use puppet_master.Scheduler.Lookups.{Kept, AllResolved, Kept-AllResolved, same-Kept}
use puppet_master.Scheduler.Lookups.Completion.{complete-Kept}
use puppet_master.Scheduler.Lookups.Steps.{
  register_component-Kept, begin_start-Resolved, add_data_trigger-Kept, add_trigger_reader-Kept,
  enqueue-Kept, on_data_available-Kept,
}

dispatch-Kept :
    (s : Impl) (now : ℕ) (e : ScheduledEvent) (t : Impl)
    → dispatch s now ≡ take_event e t
    → Kept s t
unfolding take_selected
dispatch-Kept s now e t h =
    let (i, chosen, after) = subst (Taken s now) h (dispatch-Taken s now) in
    subst (Kept s) (sym after) (same-Kept s _ refl refl)

complete_active :
    (e : ScheduledEvent) (status : Status) (now : ℕ) (s t : Impl)
    → complete e status now s ≡ some t
    → (s.active_events == 0) ≡ false
unfolding complete
complete_active e status now s t h = ground arith

complete-Resolved :
    (e : ScheduledEvent) (status : Status) (now : ℕ) (s t : Impl)
    → complete e status now s ≡ some t
    → AllResolved s
    → AllResolved t
complete-Resolved e status now s t h r =
    let (u, runs, kept) = complete-Kept e status now s (complete_active e status now s t h) r in
    let same : u ≡ t = ground (arith, runs, h) in Kept-AllResolved s t (subst (Kept s) same kept) r

begin_stop-Kept :
    (from_start : Bool) (caller : ℕ) (s t : Impl)
    → begin_stop from_start caller s ≡ continues t
    → Kept s t
unfolding begin_stop
begin_stop-Kept from_start caller s t h = same-Kept s t (ground arith) (ground arith)

finish_stop-Resolved : (s : Impl) → AllResolved (finish_stop s)
unfolding finish_stop list_at lookup
finish_stop-Resolved s k = tt

Step-Resolved : {s t : System} → Step s t → AllResolved s.impl → AllResolved t.impl
unfolding finish_start enter_worker leave_worker
Step-Resolved {s} (register found name) =
    Kept-AllResolved s.impl _ (register_component-Kept found name s.impl)
Step-Resolved {s} (start caller t h) = λ r. begin_start-Resolved caller s.impl t h
Step-Resolved {s} (installs_trigger name spec index t h) =
    Kept-AllResolved s.impl t (add_data_trigger-Kept name spec s.impl index t h)
Step-Resolved {s} (installs_reader name topic) =
    Kept-AllResolved s.impl _ (add_trigger_reader-Kept name topic s.impl)
Step-Resolved {s} started =
    Kept-AllResolved s.impl (finish_start s.impl) (same-Kept s.impl (finish_start s.impl) refl refl)
Step-Resolved {s} (queue name deadline priority now) =
    Kept-AllResolved s.impl _ (enqueue-Kept name deadline priority now s.impl)
Step-Resolved {s} (data_arrives name trigger topic now t h) =
    Kept-AllResolved s.impl t
      (OnSome-some (Kept s.impl) (on_data_available-Kept name trigger topic now s.impl) h)
Step-Resolved {s} (worker_enters id) =
    Kept-AllResolved s.impl (enter_worker id s.impl)
      (same-Kept s.impl (enter_worker id s.impl) refl refl)
Step-Resolved {s} (worker_takes now e t h) =
    Kept-AllResolved s.impl t (dispatch-Kept s.impl now e t h)
Step-Resolved {s} (worker_completes i e status now t at h) =
    complete-Resolved e status now s.impl t h
Step-Resolved {s} (worker_leaves id) =
    Kept-AllResolved s.impl (leave_worker id s.impl)
      (same-Kept s.impl (leave_worker id s.impl) refl refl)
Step-Resolved {s} (stop from_start caller t h) =
    Kept-AllResolved s.impl t (begin_stop-Kept from_start caller s.impl t h)
Step-Resolved {s} (stopped idle) = λ r. finish_stop-Resolved s.impl

init-Resolved : (options : SchedulerOptions) → AllResolved (init options)
unfolding init list_at lookup
init-Resolved options k = tt

Reach-Resolved : (options : SchedulerOptions) (s : System) → Reach options s → AllResolved s.impl
Reach-Resolved options s here = init-Resolved options
Reach-Resolved options t (next {s = s} r step) = Step-Resolved step (Reach-Resolved options s r)

-- In every state that the threads can reach, the completion of an event in a worker's hands succeeds:
-- no count falls below zero, and every trigger and flag that the completed task looks up is there.
pub Reach-complete :
    (options : SchedulerOptions) (s : System)
    → Reach options s
    → (i : ℕ) (e : ScheduledEvent) (status : Status) (now : ℕ) → get_elem? s.in_flight i ≡ some e
    → (t : Impl) × (complete e status now s.impl ≡ some t)
Reach-complete options s r i e status now at =
    let busy : (s.impl.active_events == 0) ≡ false =
      ground
        (arith, (Reach-Inv options s r).workers.active, get_elem?-lt-length s.in_flight i at) in
    let (t, runs, kept) = complete-Kept e status now s.impl busy (Reach-Resolved options s r) in
    (t, runs)
