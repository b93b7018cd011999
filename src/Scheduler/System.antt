-- ===== src/Scheduler/System.antt =====
-- src/scheduler/scheduler.cpp as a system of threads: each critical section under the mutex is one
-- step, and the events that workers have taken and not yet completed are the system's.
use puppet_master.Base.{ℕ, ◌≡◌, List, [], ◌∷◌, ◌++◌, String, Bool, some, get_elem?, erase_idx}
use puppet_master.Base.Int.{ℤ}
use puppet_master.Core.Status.{Status}
use puppet_master.Core.Result.{Result}
use puppet_master.Runtime.Component.{ComponentSpec}
use puppet_master.Core.Trigger.{TriggerSpec}
use puppet_master.Scheduler.Startup.{add_data_trigger, add_trigger_reader}
use puppet_master.Scheduler.State.{Impl, SchedulerOptions, ScheduledEvent, enqueue}
use puppet_master.Scheduler.Triggers.{on_data_available}
use puppet_master.Scheduler.Dispatch.{take_event, dispatch, complete}
use puppet_master.Scheduler.Lifecycle.{
  init, register_component, begin_start, finish_start, begin_stop, finish_stop, continues,
  enter_worker, leave_worker,
}

pub record System : Type 0 where
  pub impl : Impl
  pub in_flight : List ScheduledEvent

-- The steps of the threads. A worker leaves its loop with no event in its hands, and `Stop` clears
-- the queues when every worker has left.
pub data Step (s : System) : System → Type 0 where
  register :
      (found : Result ComponentSpec) (name : String)
      → Step s (record s { impl = (register_component found name s.impl).1 })
  start :
      (caller : ℕ) (t : Impl)
      → begin_start caller s.impl ≡ continues t
      → Step s (record s { impl = t })
  installs_trigger :
      (name : String) (spec : TriggerSpec) (index : ℕ) (t : Impl)
      → add_data_trigger name spec s.impl ≡ some (index, t)
      → Step s (record s { impl = t })
  installs_reader :
      (name topic : String) → Step s (record s { impl = (add_trigger_reader name topic s.impl).1 })
  started : Step s (record s { impl = finish_start s.impl })
  queue :
      (name : String) (deadline priority : ℤ) (now : ℕ)
      → Step s (record s { impl = (enqueue name deadline priority now s.impl).1 })
  data_arrives :
      (name : String) (trigger topic now : ℕ) (t : Impl)
      → on_data_available name trigger topic now s.impl ≡ some t
      → Step s (record s { impl = t })
  worker_enters : (id : ℕ) → Step s (record s { impl = enter_worker id s.impl })
  worker_takes :
      (now : ℕ) (e : ScheduledEvent) (t : Impl)
      → dispatch s.impl now ≡ take_event e t
      → Step s (record { impl = t; in_flight = s.in_flight ++ e ∷ [] })
  worker_completes :
      (i : ℕ) (e : ScheduledEvent) (status : Status) (now : ℕ) (t : Impl)
      → get_elem? s.in_flight i ≡ some e
      → complete e status now s.impl ≡ some t
      → Step s (record { impl = t; in_flight = erase_idx s.in_flight i })
  worker_leaves : (id : ℕ) → Step s (record s { impl = leave_worker id s.impl })
  stop :
      (from_start : Bool) (caller : ℕ) (t : Impl)
      → begin_stop from_start caller s.impl ≡ continues t
      → Step s (record s { impl = t })
  stopped : s.in_flight ≡ [] → Step s (record s { impl = finish_stop s.impl })

-- What a scheduler with these options can become.
pub data Reach (options : SchedulerOptions) : System → Type 0 where
  here : Reach options (record { impl = init options; in_flight = [] })
  next : {s t : System} → Reach options s → Step s t → Reach options t
