-- ===== src/Scheduler/Lifecycle.antt =====
-- src/scheduler/scheduler.cpp: registration, `Start`, `Stop`, `Trigger` and `WaitIdle`. Threads are
-- named by numbers; what blocks on a condition variable is an outcome of its own.
use puppet_master.Base.{
  ℕ, String, ◌<>◌, List, [], ◌∷◌, ◌++◌, Bool, true, false, ◌&&◌, ◌||◌, not, Option, none, some,
  ◌==◌, if◌then◌else◌, lookup, emplace, any, length,
}
use puppet_master.Base.Int.{ℤ, pos, ltb_ℤ}
use puppet_master.Core.Status.{
  Status, ok_status, error, is_ok, invalid_argument, failed_precondition, already_exists, not_found,
  deadline_exceeded,
}
use puppet_master.Core.Result.{Result, value, failure}
use puppet_master.Core.Trigger.{TriggerSpec, manual}
use puppet_master.Runtime.Component.{ComponentSpec}
use puppet_master.Scheduler.Spec.{find_trigger, effective_deadline, validate_component_spec}
use puppet_master.Scheduler.State.{
  Impl, SchedulerOptions, ScheduledComponent, SchedulerStats, running_required, refuses, enqueue,
}
use puppet_master.Scheduler.Dispatch.{none_pending}
use puppet_master.Scheduler.Install.{install_task_triggers}

-- The scheduler of a new `Impl`.
unfoldable pub init : SchedulerOptions → Impl
init options = record {
  options = options;
  components = [];
  task_dependents = [];
  pending_events = [];
  queued_components = [];
  executing_components = [];
  worker_ids = [];
  timer_ids = [];
  active_events = 0;
  dispatched_events = 0;
  coalesced_events = 0;
  aged_dispatches = 0;
  last_status = ok_status;
  running = false;
  starting = false;
  starting_thread = none;
  stopping = false;
}

-- `RegisterComponent`, with what `runtime.FindComponent(name)` answered.
unfoldable pub register_component : Result ComponentSpec → String → Impl → Status × Impl
register_component (failure e) name s = (e, s)
register_component (value spec) name s =
    let status = validate_component_spec spec in
    if not (is_ok status)
    then (status, s)
    else if s.running || s.stopping
    then (error failed_precondition "components must be registered before scheduler starts", s)
    else elim (lookup name s.components) [
      | some _ ↦ (error already_exists ("component already registered in scheduler: " <> name), s)
      | none ↦ (
        ok_status,
        record s {
          components =
              emplace name
                (record {
                  spec = spec;
                  data_trigger_readers = [];
                  data_triggers = [];
                  task_triggers = [];
                })
                s.components;
        },
      )
    ]

-- `SchedulerOptions::Validate`.
unfoldable pub validate_options : SchedulerOptions → Status
validate_options o =
    if o.worker_count == 0
    then error invalid_argument "scheduler worker_count must be greater than zero"
    else if ltb_ℤ o.priority_aging_interval (pos 0)
    then error invalid_argument "scheduler priority_aging_interval must not be negative"
    else ok_status

-- The outcome of a lifecycle operation's first critical section: it returns a status, it blocks, or
-- it goes on.
pub data Outcome : Type 0 where
  returns : Status → Outcome
  blocks : Outcome
  continues : Impl → Outcome

-- `Start`, up to the threads.
unfoldable pub begin_start : ℕ → Impl → Outcome
begin_start caller s =
    let options_status = validate_options s.options in
    if s.starting || s.stopping
    then returns (error failed_precondition "scheduler lifecycle operation is in progress")
    else if s.running
    then returns ok_status
    else if not (is_ok options_status)
    then returns options_status
    else elim (install_task_triggers s) [
      | failure e ↦ returns e
      | value t ↦ continues (record t {
        stopping = false;
        starting = true;
        starting_thread = some caller;
        running = true;
        last_status = ok_status;
      })
    ]

-- `finish_start`.
unfoldable pub finish_start : Impl → Impl
finish_start s = record s { starting = false; starting_thread = none }

abbrev pub is_thread : Option ℕ → ℕ → Bool
is_thread none caller = false
is_thread (some t) caller = t == caller

-- `Stop`, up to the joins. `from_start` is the failure path of `Start`.
unfoldable pub begin_stop : Bool → ℕ → Impl → Outcome
begin_stop from_start caller s =
    if any (λ id. id == caller) s.worker_ids
    then returns (error failed_precondition "scheduler worker cannot stop itself")
    else if any (λ id. id == caller) s.timer_ids
    then returns (error failed_precondition "scheduler timer cannot stop itself")
    else if not from_start && s.starting && is_thread s.starting_thread caller
    then returns (error failed_precondition "scheduler cannot stop itself while starting")
    else if not from_start && s.starting
    then blocks
    else if s.stopping
    then returns (error failed_precondition "scheduler is already stopping")
    else if not s.running
    then returns ok_status
    else continues (record s { stopping = true; running = false; timer_ids = [] })

unfoldable pub clear_triggers :
    List (String × ScheduledComponent) → List (String × ScheduledComponent)
clear_triggers [] = []
clear_triggers ((name, c) ∷ rest) =
    (name, record c { data_trigger_readers = []; data_triggers = []; task_triggers = [] })
    ∷ clear_triggers rest

-- `Stop`, once every worker and timer has been joined.
unfoldable pub finish_stop : Impl → Impl
unfolding clear_triggers
finish_stop s = record s {
  pending_events = [];
  queued_components = [];
  active_events = 0;
  components = clear_triggers s.components;
  task_dependents = [];
  stopping = false;
}

-- The start and the end of `DispatchLoop` on one worker.
unfoldable pub enter_worker : ℕ → Impl → Impl
enter_worker id s = record s { worker_ids = s.worker_ids ++ id ∷ [] }

abbrev pub erase_id : ℕ → List ℕ → List ℕ
erase_id id [] = []
erase_id id (i ∷ is) = if i == id then is else i ∷ erase_id id is

unfoldable pub leave_worker : ℕ → Impl → Impl
leave_worker id s = record s { worker_ids = erase_id id s.worker_ids }

-- `Trigger`: the first manual trigger's deadline and priority, then `Enqueue` under a lock of its own.
unfoldable pub find_manual : String → Impl → Result TriggerSpec
find_manual name s =
    if refuses s then failure running_required else elim (lookup name s.components) [
      | none ↦ failure (error not_found ("component is not registered in scheduler: " <> name))
      | some c ↦ elim (find_trigger c.spec.triggers manual) [
        | none ↦ failure (error failed_precondition ("component has no manual trigger: " <> name))
        | some t ↦ value t
      ]
    ]

unfoldable pub trigger : String → ℕ → Impl → Status × Impl
unfolding find_manual
trigger name now s = elim (find_manual name s) [
  | failure e ↦ (e, s)
  | value t ↦ enqueue name (effective_deadline t) t.priority now s
]

-- `ready` of `WaitIdle`, and `WaitIdle` itself: `expired` says that the timeout has passed.
abbrev pub is_idle : Impl → Bool
is_idle s = none_pending s && s.active_events == 0

unfoldable pub wait_idle : ℕ → ℤ → Bool → Impl → Outcome
wait_idle caller timeout expired s =
    if any (λ id. id == caller) s.worker_ids
    then returns
        (error failed_precondition "scheduler worker cannot wait for itself to become idle")
    else if is_idle s
    then returns ok_status
    else if ltb_ℤ (pos 0) timeout && expired
    then returns (error deadline_exceeded "timed out waiting for scheduler to become idle")
    else blocks

-- `Stats`.
unfoldable pub stats : Impl → SchedulerStats
stats s = record {
  registered_components = length s.components;
  pending_events = length s.pending_events;
  active_events = s.active_events;
  dispatched_events = s.dispatched_events;
  coalesced_events = s.coalesced_events;
  aged_dispatches = s.aged_dispatches;
}
