-- ===== src/Scheduler/State.antt =====
-- src/scheduler/scheduler.cpp, the fields of `Scheduler::Impl` and the queue of events. Clock
-- readings are nanoseconds since the clock's epoch; the mutex makes each function here one step.
use puppet_master.Base.{
  ℕ, ◌+◌, ◌-◌, ◌/◌, ◌^◌, min, String, List, [], ◌∷◌, ◌++◌, Bool, ◌&&◌, ltb, not, if◌then◌else◌,
  contains, insert_last, Option, ◌||◌,
}
use puppet_master.Base.Int.{ℤ, pos, pos_part, ltb_ℤ, ◌+ℤ◌}
use puppet_master.Core.Status.{Status, ok_status, error, failed_precondition}
use puppet_master.Core.Trigger.{DependencyPolicy}
use puppet_master.Runtime.Component.{ComponentSpec}

pub record SchedulerOptions : Type 0 where
  pub worker_count : ℕ
  pub priority_aging_interval : ℤ

pub record ScheduledEvent : Type 0 where
  pub component : String
  pub deadline : ℤ
  pub priority : ℤ
  pub due_time : ℕ
  pub queued_at : ℕ

-- `DataTriggerState` and `TaskTriggerState`, which have the same fields.
pub record TriggerState : Type 0 where
  pub policy : DependencyPolicy
  pub ready : List Bool
  pub priority : ℤ
  pub deadline : ℤ

pub record TaskDependent : Type 0 where
  pub component : String
  pub trigger_index : ℕ
  pub dependency_index : ℕ

-- A notification reader is named by its topic.
pub record ScheduledComponent : Type 0 where
  pub spec : ComponentSpec
  pub data_trigger_readers : List String
  pub data_triggers : List TriggerState
  pub task_triggers : List TriggerState

-- `worker_ids` holds the threads inside `DispatchLoop`. The vectors of thread handles and the
-- condition variables are the environment's.
pub record Impl : Type 0 where
  pub options : SchedulerOptions
  pub components : List (String × ScheduledComponent)
  pub task_dependents : List (String × List TaskDependent)
  pub pending_events : List ScheduledEvent
  pub queued_components : List String
  pub executing_components : List String
  pub worker_ids : List ℕ
  pub timer_ids : List ℕ
  pub active_events : ℕ
  pub dispatched_events : ℕ
  pub coalesced_events : ℕ
  pub aged_dispatches : ℕ
  pub last_status : Status
  pub running : Bool
  pub starting : Bool
  pub starting_thread : Option ℕ
  pub stopping : Bool

-- `SchedulerStats`, and `Stats`.
pub record SchedulerStats : Type 0 where
  pub registered_components : ℕ
  pub pending_events : ℕ
  pub active_events : ℕ
  pub dispatched_events : ℕ
  pub coalesced_events : ℕ
  pub aged_dispatches : ℕ

-- `steady_clock::time_point::max()`, in nanoseconds.
abbrev pub time_max : ℕ
time_max = 2 ^ 63 - 1

-- When an event queued at `now` is due.
unfoldable pub due_at : ℤ → ℕ → ℕ
due_at deadline now =
    if ltb_ℤ (pos 0) deadline && ltb_ℤ deadline (pos (time_max - now))
    then now + pos_part deadline
    else time_max

-- `QueueEvent`: an event of a component that is queued already is merged into that one.
unfoldable pub queue_event : String → ℤ → ℤ → ℕ → Impl → Impl
queue_event name deadline priority now s =
    if contains name s.queued_components
    then record s { coalesced_events = s.coalesced_events + 1 }
    else record s {
      queued_components = insert_last name s.queued_components;
      pending_events =
          s.pending_events
          ++ (record {
            component = name;
            deadline = deadline;
            priority = priority;
            due_time = due_at deadline now;
            queued_at = now;
          })
            ∷ [];
    }

abbrev pub running_required : Status
running_required =
    error failed_precondition "scheduler must be running before accepting trigger events"

-- `!running || stopping`: no trigger events are taken.
abbrev pub refuses : Impl → Bool
refuses s = not s.running || s.stopping

-- `Enqueue`.
unfoldable pub enqueue : String → ℤ → ℤ → ℕ → Impl → Status × Impl
unfolding queue_event
enqueue name deadline priority now s =
    if refuses s
    then (running_required, s)
    else (ok_status, queue_event name deadline priority now s)

abbrev pub max_boost : ℕ
max_boost = 2 ^ 40

-- `EffectivePriority`.
unfoldable pub effective_priority : ℤ → ScheduledEvent → ℕ → ℤ
effective_priority interval event now =
    if ltb_ℤ (pos 0) interval && ltb event.queued_at now
    then event.priority +ℤ pos (min ((now - event.queued_at) / pos_part interval) max_boost)
    else event.priority
