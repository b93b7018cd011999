-- ===== src/Scheduler/Install.antt =====
-- src/scheduler/scheduler.cpp, `InstallTaskTriggers`.
pub mod Maps
pub mod Edges
pub mod Plans
pub mod Accepts
pub mod Wired
pub mod Resolve
use puppet_master.Base.{
  ℕ, zero, suc, ◌+◌, String, ◌<>◌, ◌=ₛ◌, List, [], ◌∷◌, ◌++◌, Bool, true, false, ◌||◌, Option, none,
  some, if◌then◌else◌, lookup, assign, keys, map, contains, insert_last, length, replicate, ◌==◌,
}
use puppet_master.Core.Status.{Status, error, invalid_argument}
use puppet_master.Core.Result.{Result, value, failure, from_status}
use puppet_master.Core.Trigger.{TriggerSpec, kind_eq, empty, task_dependency}
use puppet_master.Scheduler.Spec.{effective_deadline}
use puppet_master.Scheduler.State.{Impl, ScheduledComponent, TriggerState, TaskDependent}
use puppet_master.Scheduler.Graph.{Indegree, visit, sources}

abbrev pub Components : Type 0
Components = List (String × ScheduledComponent)

-- `map[key]`, where a key that is not there stands for the empty vector.
unfoldable pub list_at {ℓ} : {V : Type ℓ} → String → List (String × List V) → List V
list_at k m = elim (lookup k m) [ none ↦ [] | some vs ↦ vs ]

-- `map[key].push_back(v)`.
unfoldable pub push_at {ℓ} :
    {V : Type ℓ} → String → V → List (String × List V) → List (String × List V)
push_at k v [] = (k, v ∷ []) ∷ []
push_at k v ((j, vs) ∷ m) = if j =ₛ k then (j, vs ++ v ∷ []) ∷ m else (j, vs) ∷ push_at k v m

-- The local variables of `InstallTaskTriggers`.
pub record Plan : Type 0 where
  pub dependents : List (String × List TaskDependent)
  pub states : List (String × List TriggerState)
  pub indegree : Indegree

unfoldable pub count_up : String → Indegree → Indegree
count_up k [] = []
count_up k ((j, n) ∷ m) = if j =ₛ k then (j, n + 1) ∷ m else (j, n) ∷ count_up k m

-- One dependency that passes the checks: dependency `index` of trigger `trigger_index` of `name`.
unfoldable pub add_edge : String → ℕ → ℕ → String → Plan → Plan
unfolding push_at count_up
add_edge name trigger_index index upstream plan = record plan {
  dependents =
      push_at upstream
        (record { component = name; trigger_index = trigger_index; dependency_index = index })
        plan.dependents;
  indegree = count_up name plan.indegree;
}

-- The loop over one trigger's dependencies, from `index` on.
unfoldable pub plan_dependencies :
    List String → String → ℕ → List String → ℕ → List String → Plan → Result Plan
unfolding add_edge
plan_dependencies known name trigger_index seen index [] plan = value plan
plan_dependencies known name trigger_index seen index (upstream ∷ rest) plan =
    let next =
      plan_dependencies known name trigger_index (insert_last upstream seen) (suc index) rest
        (add_edge name trigger_index index upstream plan) in
    if upstream =ₛ name || contains upstream seen
    then from_status (error invalid_argument ("self or duplicate task dependency: " <> upstream))
    else if contains upstream known
    then next
    else from_status
        (error invalid_argument ("task dependency is not registered in scheduler: " <> upstream))

-- `states[name].push_back` for a trigger: none of its dependencies is ready.
unfoldable pub add_state : String → TriggerSpec → Plan → Plan
unfolding push_at
add_state name t plan = record plan {
  states =
      push_at name
        (record {
          policy = t.dependency_policy;
          ready = replicate (length t.task_dependencies) false;
          priority = t.priority;
          deadline = effective_deadline t;
        })
        plan.states;
}

-- The loop over one component's triggers.
unfoldable pub plan_triggers : List String → String → List TriggerSpec → Plan → Result Plan
unfolding plan_dependencies list_at add_state
plan_triggers known name [] plan = value plan
plan_triggers known name (t ∷ ts) plan =
    let planned =
      plan_dependencies known name (length (list_at name plan.states)) [] 0 t.task_dependencies
        (add_state name t plan) in
    if kind_eq t.kind task_dependency
    then (if empty t.task_dependencies
        then from_status
            (error invalid_argument "task dependency trigger requires at least one task dependency")
        else elim planned [ failure e ↦ failure e | value p ↦ plan_triggers known name ts p ])
    else plan_triggers known name ts plan

unfoldable pub plan_components : List String → Components → Plan → Result Plan
unfolding plan_triggers
plan_components known [] plan = value plan
plan_components known ((name, c) ∷ rest) plan =
    elim (plan_triggers known name c.spec.triggers plan) [
      | failure e ↦ failure e
      | value p ↦ plan_components known rest p
    ]

-- `indegree.emplace(entry.first, 0)` for each component.
unfoldable pub zeros : Components → Indegree
zeros [] = []
zeros ((name, c) ∷ rest) = (name, 0) ∷ zeros rest

-- `entry.second.task_triggers = std::move(states[entry.first])`.
unfoldable pub install_states : List (String × List TriggerState) → Components → Components
install_states states [] = []
install_states states ((name, c) ∷ rest) =
    (name, record c { task_triggers = list_at name states }) ∷ install_states states rest

-- The components that depend on a task.
abbrev pub successors : Plan → String → List String
successors plan upstream = map (λ d. d.component) (list_at upstream plan.dependents)

unfoldable pub is_acyclic : Components → Plan → Bool
unfolding visit sources
is_acyclic cs plan =
    elim (visit (successors plan) (length cs) plan.indegree (sources plan.indegree) 0) [
      | none ↦ false
      | some visited ↦ visited == length cs
    ]

unfoldable pub install_task_triggers : Impl → Result Impl
unfolding plan_components zeros install_states is_acyclic
install_task_triggers s =
    elim (plan_components (keys s.components) s.components
      (record { dependents = []; states = []; indegree = zeros s.components })) [
        | failure e ↦ failure e
        | value plan ↦
            if is_acyclic s.components plan
            then value (record s {
              components = install_states plan.states s.components;
              task_dependents = plan.dependents;
            })
            else from_status (error invalid_argument "task dependency graph contains a cycle")
      ]
