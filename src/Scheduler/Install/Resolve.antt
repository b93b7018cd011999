-- ===== src/Scheduler/Install/Resolve.antt =====
-- What `InstallTaskTriggers` stores for a completed task to find: every recorded dependent names a
-- trigger that is there and a flag of it.
use text.Mathlib.TextEquality.{eq_iff}
use text.Mathlib.TextPositions.{eq_refl}
use puppet_master.Base.{
  ℕ, zero, suc, ◌+◌, ◌<◌, ◌≤◌, ◌≡◌, refl, ap, subst, ◌∙◌, String, List, [], ◌∷◌, ◌++◌, Bool, true,
  false, ◌=ₛ◌, ◌||◌, if◌then◌else◌, All, All-append, Option, none, some, contains, keys, lookup,
  arith, Bool-cases, if_both, inl, inr, length, get_elem?, get_elem?-length, replicate, insert_last,
}
use puppet_master.Core.Trigger.{TriggerSpec, kind_eq, empty, task_dependency}
use puppet_master.Core.Result.{value}
use puppet_master.Scheduler.State.{Impl, TriggerState, TaskDependent}
use puppet_master.Scheduler.Install.{
  Components, Plan, list_at, add_edge, add_state, plan_dependencies, plan_triggers, plan_components,
  install_states, install_task_triggers,
}
use puppet_master.Scheduler.Install.Maps.{list_at-push_at}
use puppet_master.Scheduler.Install.Edges.{OnValue}
use puppet_master.Scheduler.Install.Plans.{OnValue-bind, All-map, planned}
use puppet_master.Scheduler.Install.Accepts.{
  accepted, accepts_plan, installed, start_plan, keys-known,
}
use puppet_master.Scheduler.Spec.{effective_deadline}

-- The number of flags of a trigger in a list.
unfoldable pub flags_at : List TriggerState → ℕ → Option ℕ
flags_at ts i = elim (get_elem? ts i) [ none ↦ none | some t ↦ some (length t.ready) ]

pub flags_at-append :
    (ts us : List TriggerState) (i n : ℕ) → flags_at ts i ≡ some n → flags_at (ts ++ us) i ≡ some n
unfolding flags_at
flags_at-append [] us i n h = ground arith
flags_at-append (t ∷ ts) us zero n h = h
flags_at-append (t ∷ ts) us (suc i) n h = flags_at-append ts us i n h

-- The dependent names a component, a trigger of it and a flag of that.
abbrev pub Resolved : (String → List TriggerState) → TaskDependent → Type 0
Resolved triggers d =
    (n : ℕ) × (flags_at (triggers d.component) d.trigger_index ≡ some n) × (d.dependency_index < n)

-- More triggers behind those that are there.
abbrev pub Extends : (f g : String → List TriggerState) → Type 0
Extends f g = (k : String) (i n : ℕ) → flags_at (f k) i ≡ some n → flags_at (g k) i ≡ some n

pub Resolved-Extends :
    (f g : String → List TriggerState)
    → Extends f g
    → (d : TaskDependent) → Resolved f d
    → Resolved g d
Resolved-Extends f g e d (n, at, lt) = (n, e d.component d.trigger_index n at, lt)

abbrev pub states_of : Plan → String → List TriggerState
states_of p k = list_at k p.states

abbrev pub PlanResolved : List String → Plan → Type 0
PlanResolved nodes p =
    (k : String)
    → All (λ d. (contains d.component nodes ≡ true) × Resolved (states_of p) d)
        (list_at k p.dependents)

module _ (nodes : List String) (name : String) (node : contains name nodes ≡ true) where
  add_edge-Resolved :
      (t i n : ℕ) (up : String) (p : Plan)
      → flags_at (states_of p name) t ≡ some n
      → i < n
      → PlanResolved nodes p
      → PlanResolved nodes (add_edge name t i up p)
  unfolding add_edge
  add_edge-Resolved t i n up p at lt r k = elim (Bool-cases (up =ₛ k)) [
    | inl same ↦
        rw (list_at-push_at, same)
          (All-append _ (list_at k p.dependents) _ (r k) ((node, (n, at, lt)), tt))
    | inr other ↦ rw (list_at-push_at, other) (r k)
  ]

  plan_dependencies-Resolved :
      (t : ℕ) (seen : List String) (i n : ℕ) (ups : List String) (p : Plan)
      → flags_at (states_of p name) t ≡ some n
      → i + length ups ≤ n
      → PlanResolved nodes p
      → OnValue (PlanResolved nodes) (plan_dependencies nodes name t seen i ups p)
  unfolding plan_dependencies add_edge
  plan_dependencies-Resolved t seen i n [] p at le r = r
  plan_dependencies-Resolved t seen i n (up ∷ ups) p at le r =
      if_both (OnValue (PlanResolved nodes)) (up =ₛ name || contains up seen) _ _ tt (
        if_both (OnValue (PlanResolved nodes)) (contains up nodes) _ _
          (plan_dependencies-Resolved t (insert_last up seen) (suc i) n ups (add_edge name t i up p)
            at (omega (arith, le)) (add_edge-Resolved t i n up p at (omega (arith, le)) r))
          tt)

  length-replicate : (n : ℕ) (b : Bool) → length (replicate n b) ≡ n
  length-replicate zero b = refl
  length-replicate (suc n) b = ap suc (length-replicate n b)

  state_of : TriggerSpec → TriggerState
  state_of t = record {
    policy = t.dependency_policy;
    ready = replicate (length t.task_dependencies) false;
    priority = t.priority;
    deadline = effective_deadline t;
  }

  states-add_state :
      (t : TriggerSpec) (p : Plan) (k : String)
      → states_of (add_state name t p) k
        ≡ (if name =ₛ k then states_of p k ++ state_of t ∷ [] else states_of p k)
  unfolding add_state state_of
  states-add_state t p k = list_at-push_at name k _ p.states

  add_state-Extends :
      (t : TriggerSpec) (p : Plan) → Extends (states_of p) (states_of (add_state name t p))
  add_state-Extends t p k i n h = elim (Bool-cases (name =ₛ k)) [
    | inl same ↦
        rw (states-add_state t p k, same) (flags_at-append (states_of p k) (state_of t ∷ []) i n h)
    | inr other ↦ rw (states-add_state t p k, other) h
  ]

  add_state-flags :
      (t : TriggerSpec) (p : Plan)
      → flags_at (states_of (add_state name t p) name) (length (list_at name p.states))
        ≡ some (length t.task_dependencies)
  unfolding flags_at state_of
  add_state-flags t p = ground (
    arith,
    states-add_state t p name,
    eq_refl name,
    get_elem?-length (states_of p name) (state_of t),
    length-replicate (length t.task_dependencies) false,
  )

  add_state-Resolved :
      (t : TriggerSpec) (p : Plan) → PlanResolved nodes p → PlanResolved nodes (add_state name t p)
  unfolding add_state
  add_state-Resolved t p r k =
      All-map (λ d. (contains d.component nodes ≡ true) × Resolved (states_of p) d) _
        (λ d h. (
          h.0,
          Resolved-Extends (states_of p) (states_of (add_state name t p)) (add_state-Extends t p) d
              h.1,
        ))
        (list_at k p.dependents) (r k)

  plan_triggers-Resolved :
      (ts : List TriggerSpec) (p : Plan)
      → PlanResolved nodes p
      → OnValue (PlanResolved nodes) (plan_triggers nodes name ts p)
  unfolding plan_triggers
  plan_triggers-Resolved [] p r = r
  plan_triggers-Resolved (t ∷ ts) p r =
      if_both (OnValue (PlanResolved nodes)) (kind_eq t.kind task_dependency) _ _
        (if_both (OnValue (PlanResolved nodes)) (empty t.task_dependencies) _ _ tt (
          OnValue-bind (PlanResolved nodes) (PlanResolved nodes) (plan_triggers nodes name ts)
            (planned nodes name t p)
            (plan_dependencies-Resolved (length (list_at name p.states)) [] 0
              (length t.task_dependencies) t.task_dependencies (add_state name t p)
              (add_state-flags t p) (omega arith) (add_state-Resolved t p r))
            (λ q r'. plan_triggers-Resolved ts q r')))
        (plan_triggers-Resolved ts p r)

plan_components-Resolved :
    (nodes : List String) (cs : Components) (p : Plan)
    → All (λ entry. contains entry.0 nodes ≡ true) cs
    → PlanResolved nodes p
    → OnValue (PlanResolved nodes) (plan_components nodes cs p)
unfolding plan_components
plan_components-Resolved nodes [] p h r = r
plan_components-Resolved nodes ((name, c) ∷ cs) p h r =
    OnValue-bind (PlanResolved nodes) (PlanResolved nodes) (plan_components nodes cs)
      (plan_triggers nodes name c.spec.triggers p)
      (plan_triggers-Resolved nodes name h.0 c.spec.triggers p r)
      (λ q r'. plan_components-Resolved nodes cs q h.1 r')

-- The task triggers of a component.
unfoldable pub triggers_of : Components → String → List TriggerState
triggers_of cs k = elim (lookup k cs) [ none ↦ [] | some c ↦ c.task_triggers ]

triggers-install_states :
    (states : List (String × List TriggerState)) (cs : Components) (k : String)
    → contains k (keys cs) ≡ true
    → triggers_of (install_states states cs) k ≡ list_at k states
unfolding triggers_of install_states lookup contains
triggers-install_states states [] k h = ground arith
triggers-install_states states ((j, c) ∷ cs) k h =
    ground (arith, triggers-install_states states cs k, eq_iff j k)

start_plan-Resolved : (cs : Components) → PlanResolved (keys cs) (start_plan cs)
unfolding list_at lookup
start_plan-Resolved cs k = tt

-- Whatever a completed task looks up among the installed triggers is there.
pub install-Resolved :
    (s t : Impl)
    → install_task_triggers s ≡ value t
    → (k : String) → All (Resolved (triggers_of t.components)) (list_at k t.task_dependents)
unfolding install_task_triggers
install-Resolved s t h k =
    let (p, planned_, acyclic) = accepted s t h in
    let r = subst (OnValue (PlanResolved (keys s.components))) planned_ (
      plan_components-Resolved (keys s.components) s.components (start_plan s.components)
        (keys-known s.components) (start_plan-Resolved s.components)) in
    let same : t ≡ installed s p = ground (arith, h, accepts_plan s p planned_ acyclic) in
    rw same (
      All-map (λ d. (contains d.component (keys s.components) ≡ true) × Resolved (states_of p) d) _
        (λ d (in_, (n, at, lt)). (
          n,
          ap (λ ts. flags_at ts d.trigger_index)
                (triggers-install_states p.states s.components d.component in_)
              ∙ at,
          lt,
        ))
        (list_at k p.dependents) (r k))
