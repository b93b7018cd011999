-- ===== src/Scheduler/Triggers.antt =====
-- src/scheduler/scheduler.cpp, what a trigger does when one of its dependencies is there.
use puppet_master.Base.{
  ℕ, String, List, [], ◌∷◌, Bool, true, false, Option, none, some, if◌then◌else◌, lookup, assign,
  get_elem?, set, length, replicate, all, ltb,
}
use puppet_master.Core.Trigger.{is_any}
use puppet_master.Scheduler.State.{
  Impl, ScheduledComponent, TriggerState, TaskDependent, queue_event, refuses,
}

-- The trigger after dependency `i` is ready, and whether it fires. A trigger on any dependency
-- keeps no flags; one on all of them clears its flags when it fires.
unfoldable pub mark_ready : TriggerState → ℕ → TriggerState × Bool
mark_ready t i =
    if is_any t.policy
    then (t, true)
    else let flags = set t.ready i true in
      if all (λ b. b) flags
      then (record t { ready = replicate (length flags) false }, true)
      else (record t { ready = flags }, false)

-- A dependency of trigger `t` is there: `put` stores the trigger, and the component is queued if it
-- fires. `none` is a flag beyond the vector.
unfoldable pub fire : TriggerState → ℕ → String → (TriggerState → Impl) → ℕ → Impl → Option Impl
unfolding mark_ready
fire t i name put now s =
    if is_any t.policy
    then some (queue_event name t.deadline t.priority now s)
    else if ltb i (length t.ready)
    then (let (t', fires) = mark_ready t i in
        some (if fires then queue_event name t.deadline t.priority now (put t') else put t'))
    else none

abbrev pub put_component : String → ScheduledComponent → Impl → Impl
put_component name c s = record s { components = assign name c s.components }

-- Store trigger `index` of the component, which is `c` before.
abbrev pub put_data_trigger : String → ℕ → ScheduledComponent → Impl → TriggerState → Impl
put_data_trigger name index c s t =
    put_component name (record c { data_triggers = set c.data_triggers index t }) s

abbrev pub put_task_trigger : String → ℕ → ScheduledComponent → Impl → TriggerState → Impl
put_task_trigger name index c s t =
    put_component name (record c { task_triggers = set c.task_triggers index t }) s

-- `components.at(name).data_triggers.at(index)`. `none` is the exception of a `.at()`.
unfoldable pub data_trigger_at : String → ℕ → Impl → Option (ScheduledComponent × TriggerState)
data_trigger_at name index s = elim (lookup name s.components) [
  | none ↦ none
  | some c ↦ elim (get_elem? c.data_triggers index) [ none ↦ none | some t ↦ some (c, t) ]
]

-- `components.at(name).task_triggers.at(index)`.
unfoldable pub task_trigger_at : String → ℕ → Impl → Option (ScheduledComponent × TriggerState)
task_trigger_at name index s = elim (lookup name s.components) [
  | none ↦ none
  | some c ↦ elim (get_elem? c.task_triggers index) [ none ↦ none | some t ↦ some (c, t) ]
]

-- `OnDataAvailable`.
unfoldable pub on_data_available : String → ℕ → ℕ → ℕ → Impl → Option Impl
unfolding fire data_trigger_at
on_data_available name trigger_index topic_index now s =
    if refuses s then some s else elim (data_trigger_at name trigger_index s) [
      | none ↦ none
      | some (c, t) ↦ fire t topic_index name (put_data_trigger name trigger_index c s) now s
    ]

-- One round of the loop over the tasks that depend on a completed one.
unfoldable pub notify_dependent : TaskDependent → ℕ → Impl → Option Impl
unfolding fire task_trigger_at
notify_dependent d now s = elim (task_trigger_at d.component d.trigger_index s) [
  | none ↦ none
  | some (c, t) ↦
      fire t d.dependency_index d.component (put_task_trigger d.component d.trigger_index c s) now s
]

unfoldable pub notify_dependents : List TaskDependent → ℕ → Impl → Option Impl
notify_dependents [] now s = some s
notify_dependents (d ∷ ds) now s = elim (notify_dependent d now s) [
  | none ↦ none
  | some s' ↦ notify_dependents ds now s'
]
