-- ===== src/Scheduler/Samples.antt =====
-- A planner that waits for a camera, in the states that the tests look at.
use puppet_master.Base.{ℕ, String, List, [], ◌∷◌, true, false, none, some, if◌then◌else◌, ◌=ₛ◌}
use puppet_master.Base.Int.{ℤ, pos}
use puppet_master.Core.Status.{ok_status}
use puppet_master.Core.Result.{value}
use puppet_master.Core.Trigger.{TriggerSpec, manual, task_dependency, all_of}
use puppet_master.Runtime.Component.{ComponentSpec}
use puppet_master.Scheduler.State.{Impl, time_max, SchedulerOptions, ScheduledEvent}
use puppet_master.Scheduler.Lifecycle.{init, register_component}
use puppet_master.Scheduler.Install.{Plan}
use puppet_master.Scheduler.System.{System}

abbrev pub options : SchedulerOptions
options = record { worker_count = 2; priority_aging_interval = pos 10 }

abbrev pub manual_trigger : TriggerSpec
manual_trigger = record {
  kind = manual;
  period = pos 0;
  dependency_policy = all_of;
  data_dependencies = [];
  task_dependencies = [];
  priority = pos 1;
  deadline = pos 0;
  service_dependencies = [];
}

abbrev pub after_camera : TriggerSpec
after_camera = record manual_trigger { kind = task_dependency; task_dependencies = "camera" ∷ [] }

abbrev pub component_spec : String → List TriggerSpec → ComponentSpec
component_spec name triggers = record {
  name = name;
  readers = [];
  writers = [];
  servers = [];
  clients = [];
  triggers = triggers;
}

abbrev pub registered : Impl
registered =
    (register_component (value (component_spec "planner" (after_camera ∷ []))) "planner"
      (register_component (value (component_spec "camera" (manual_trigger ∷ []))) "camera"
        (init options)).1).1

abbrev pub sys : Impl → List ScheduledEvent → System
sys impl in_flight = record { impl = impl; in_flight = in_flight }

abbrev pub event : String → ℤ → ℕ → ScheduledEvent
event name priority at = record {
  component = name;
  deadline = pos 0;
  priority = priority;
  due_time = time_max;
  queued_at = at;
}

-- The scheduler after it has started.
abbrev pub running : Impl
running = record {
  options = options;
  components =
      (
        "camera",
        record {
          spec = component_spec "camera" (manual_trigger ∷ []);
          data_trigger_readers = [];
          data_triggers = [];
          task_triggers = [];
        },
      )
      ∷ (
        "planner",
        record {
          spec = component_spec "planner" (after_camera ∷ []);
          data_trigger_readers = [];
          data_triggers = [];
          task_triggers =
              (record { policy = all_of; ready = false ∷ []; priority = pos 1; deadline = pos 0 })
              ∷ [];
        },
      )
      ∷ [];
  task_dependents =
      ("camera", (record { component = "planner"; trigger_index = 0; dependency_index = 0 }) ∷ [])
      ∷ [];
  pending_events = [];
  queued_components = [];
  executing_components = [];
  worker_ids = [];
  timer_ids = [];
  active_events = 0;
  dispatched_events = 0;
  coalesced_events = 0;
  aged_dispatches = 0;
  last_status = ok_status;
  running = true;
  starting = true;
  starting_thread = some 1;
  stopping = false;
}

abbrev pub triggered : Impl
triggered = record running {
  pending_events = event "camera" (pos 1) 5 ∷ [];
  queued_components = "camera" ∷ [];
}

abbrev pub working : Impl
working = record running { executing_components = "camera" ∷ []; active_events = 1 }

-- The planner is declared higher, but the camera has waited for four intervals.
abbrev pub crowded : Impl
crowded = record running {
  pending_events = event "planner" (pos 2) 45 ∷ event "camera" (pos 1) 5 ∷ [];
  queued_components = "planner" ∷ "camera" ∷ [];
}

-- The scheduler before it has started.
abbrev pub idle : Impl
idle = record running {
  components =
      (
        "camera",
        record {
          spec = component_spec "camera" (manual_trigger ∷ []);
          data_trigger_readers = [];
          data_triggers = [];
          task_triggers = [];
        },
      )
      ∷ (
        "planner",
        record {
          spec = component_spec "planner" (after_camera ∷ []);
          data_trigger_readers = [];
          data_triggers = [];
          task_triggers = [];
        },
      )
      ∷ [];
  task_dependents = [];
  running = false;
  starting = false;
  starting_thread = none;
}

abbrev pub ready : Impl
ready = record idle { components = running.components; task_dependents = running.task_dependents }

abbrev pub rank : String → ℕ
rank name = if name =ₛ "planner" then 1 else 0

abbrev pub plan : Plan
plan = record {
  dependents = running.task_dependents;
  states =
      (
        "planner",
        (record { policy = all_of; ready = false ∷ []; priority = pos 1; deadline = pos 0 }) ∷ [],
      )
      ∷ [];
  indegree = ("camera", 0) ∷ ("planner", 1) ∷ [];
}
