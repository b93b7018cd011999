-- ===== src/Scheduler/Startup.antt =====
-- src/scheduler/scheduler.cpp, `InstallDataTriggers`: the notification readers of a starting
-- scheduler. What the runtime answers is a parameter; the mutex is released between the changes, so
-- each of them is a step of its own, and the loop is what one thread does with none in between.
use puppet_master.Base.{
  ℕ, suc, String, ◌<>◌, List, [], ◌∷◌, ◌++◌, false, Option, none, some, if◌then◌else◌, lookup,
  length, replicate,
}
use puppet_master.Core.Status.{Status, ok_status, error, is_ok, not_found}
use puppet_master.Core.Result.{Result, value, failure}
use puppet_master.Core.Trigger.{TriggerSpec, kind_eq, on_data}
use puppet_master.Transport.Message.{EndpointConfig}
use puppet_master.Runtime.Component.{ComponentSpec}
use puppet_master.Scheduler.Spec.{effective_deadline, find_reader_endpoint, make_trigger_endpoint}
use puppet_master.Scheduler.State.{Impl}
use puppet_master.Scheduler.Triggers.{put_component}

-- `states.push_back(DataTriggerState {...})`, with the trigger's index. `none` is the exception of
-- `components.at(name)`.
unfoldable pub add_data_trigger : String → TriggerSpec → Impl → Option (ℕ × Impl)
add_data_trigger name t s = elim (lookup name s.components) [
  | none ↦ none
  | some c ↦ some (
    length c.data_triggers,
    put_component name
        (record c {
          data_triggers =
              c.data_triggers
              ++ (record {
                policy = t.dependency_policy;
                ready = replicate (length t.data_dependencies) false;
                priority = t.priority;
                deadline = effective_deadline t;
              })
                ∷ [];
        })
        s,
  )
]

-- `data_trigger_readers.push_back(reader)`; a reader is named by its topic.
unfoldable pub add_trigger_reader : String → String → Impl → Status × Impl
add_trigger_reader name topic s = elim (lookup name s.components) [
  | none ↦ (error not_found ("component is not registered in scheduler: " <> name), s)
  | some c ↦ (
    ok_status,
    put_component name (record c { data_trigger_readers = c.data_trigger_readers ++ topic ∷ [] }) s,
  )
]

-- `subscribe` is the runtime's `CreateReader` and the reader's `SetDataAvailableCallback`, whichever
-- fails first; the callback is `OnDataAvailable` for that trigger and topic.
module _ (find : String → Result ComponentSpec)
    (subscribe : EndpointConfig → String → ℕ → ℕ → Status) where
  -- The loop over the topics of one trigger, from `i` on.
  unfoldable pub install_topics :
      String → ComponentSpec → ℕ → ℕ → List String → Impl → Status × Impl
  unfolding add_trigger_reader
  install_topics name spec trigger i [] s = (ok_status, s)
  install_topics name spec trigger i (topic ∷ topics) s =
      let added = add_trigger_reader name topic s in
      let rest = install_topics name spec trigger (suc i) topics added.1 in
      elim (find_reader_endpoint spec topic) [
        | failure e ↦ (e, s)
        | value endpoint ↦
            let status = subscribe (make_trigger_endpoint endpoint) name trigger i in
            if is_ok status then (if is_ok added.0 then rest else added) else (status, s)
      ]

  -- The loop over the triggers of one component. `none` is an exception.
  unfoldable pub install_triggers :
      String → ComponentSpec → List TriggerSpec → Impl → Option (Status × Impl)
  unfolding install_topics add_data_trigger
  install_triggers name spec [] s = some (ok_status, s)
  install_triggers name spec (t ∷ ts) s =
      if kind_eq t.kind on_data
      then elim (add_data_trigger name t s) [
        | none ↦ none
        | some (index, s') ↦
            let (status, s2) = install_topics name spec index 0 t.data_dependencies s' in
            if is_ok status then install_triggers name spec ts s2 else some (status, s2)
      ]
      else install_triggers name spec ts s

  -- The loop over the components' names.
  unfoldable pub install_data_triggers : List String → Impl → Option (Status × Impl)
  unfolding install_triggers
  install_data_triggers [] s = some (ok_status, s)
  install_data_triggers (name ∷ names) s = elim (find name) [
    | failure e ↦ some (e, s)
    | value spec ↦ elim (install_triggers name spec spec.triggers s) [
      | none ↦ none
      | some (status, s') ↦
          if is_ok status then install_data_triggers names s' else some (status, s')
    ]
  ]
