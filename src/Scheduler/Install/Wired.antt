-- ===== src/Scheduler/Install/Wired.antt =====
-- `InstallTaskTriggers` accepts components whose dependencies are well formed and can be ordered.
use text.Mathlib.TextEquality.{eq_iff}
use puppet_master.Base.{
  ℕ, suc, ◌<◌, ◌≡◌, refl, ap, String, List, [], ◌∷◌, ◌++◌, true, false, ◌=ₛ◌, ◌||◌, ◌&&◌, All,
  contains, insert_last, Distinct, keys, arith, Bool-cases, inl, inr, length, contains-append,
  lookup,
}
use puppet_master.Core.Trigger.{TriggerSpec, kind_eq, empty, task_dependency}
use puppet_master.Core.Result.{Result, value, failure}
use puppet_master.Scheduler.State.{ScheduledComponent, Impl}
use puppet_master.Scheduler.Graph.Acyclic.{IsRanked-visit}
use puppet_master.Scheduler.Install.{
  Components, Plan, list_at, add_edge, add_state, plan_dependencies, plan_triggers, plan_components,
  install_task_triggers,
}
use puppet_master.Scheduler.Install.Edges.{Rises, add_edge-Rises}
use puppet_master.Scheduler.Install.Plans.{
  dependencies_of, plan_dependencies-next, plan_triggers-other, plan_triggers-task,
}
use puppet_master.Scheduler.Install.Accepts.{
  Ordered, start_plan, accepts_plan, installed, graph_of, starts, Sound-planned, visits_acyclic,
}

-- Dependencies that `InstallTaskTriggers` takes: registered, not the component itself, none twice,
-- and at least one.
pub record Fits (known : List String) (name : String) (t : TriggerSpec) : Type 0 where
  pub some_dependency : (kind_eq t.kind task_dependency && empty t.task_dependencies) ≡ false
  pub registered : All (λ up. contains up known ≡ true) (dependencies_of t)
  pub no_self : contains name (dependencies_of t) ≡ false
  pub distinct : Distinct (dependencies_of t)

abbrev pub AllFit : List String → Components → Type 0
AllFit known cs = All (λ entry. All (Fits known entry.0) entry.1.spec.triggers) cs

-- The result is a plan that rises.
abbrev Plans : (String → ℕ) → Result Plan → Type 0
Plans rank r = (q : Plan) × (r ≡ value q) × Rises rank q

apart_from :
    (seen : List String) (up : String) (ups : List String)
    → contains up ups ≡ false
    → All (λ u. contains u seen ≡ false) ups
    → All (λ u. contains u (seen ++ up ∷ []) ≡ false) ups
unfolding contains
apart_from seen up [] h all_ = tt
apart_from seen up (u ∷ us) h all_ = (
  ground (arith, all_.0, contains-append u seen (up ∷ []), eq_iff u up, eq_iff up u),
  apart_from seen up us (ground arith) all_.1,
)

none_seen : (ups : List String) → All (λ u. contains u [] ≡ false) ups
unfolding contains
none_seen [] = tt
none_seen (u ∷ us) = (refl, none_seen us)

plan_components-next :
    (known : List String) (name : String) (c : ScheduledComponent) (cs : Components) (p q : Plan)
    → plan_triggers known name c.spec.triggers p ≡ value q
    → plan_components known ((name, c) ∷ cs) p ≡ plan_components known cs q
unfolding plan_components
plan_components-next known name c cs p q h =
    ap (λ r. elim r [ failure e ↦ failure e | value a ↦ plan_components known cs a ]) h

module _ (known : List String) (rank : String → ℕ) where
  plan_dependencies-Plans :
      (name : String) (t : ℕ) (seen : List String) (i : ℕ) (ups : List String) (p : Plan)
      → All (λ up. contains up known ≡ true) ups
      → contains name ups ≡ false
      → Distinct ups
      → All (λ u. contains u seen ≡ false) ups
      → All (λ up. rank up < rank name) ups
      → Rises rank p
      → Plans rank (plan_dependencies known name t seen i ups p)
  unfolding plan_dependencies contains
  plan_dependencies-Plans name t seen i [] p k own d new lt r = (p, refl, r)
  plan_dependencies-Plans name t seen i (up ∷ ups) p k own d new lt r =
      let other : (up =ₛ name || contains up seen) ≡ false = ground (arith, new.0) in
      rw (plan_dependencies-next known name t seen i up ups p other k.0) (
        plan_dependencies-Plans name t (insert_last up seen) (suc i) ups (add_edge name t i up p)
          k.1 (ground arith) d.1 (apart_from seen up ups d.0 new.1) lt.1
          (add_edge-Rises rank name t i up p lt.0 r))

  plan_triggers-Plans :
      (name : String) (ts : List TriggerSpec) (p : Plan)
      → All (Fits known name) ts
      → All (λ t. All (λ up. rank up < rank name) (dependencies_of t)) ts
      → Rises rank p
      → Plans rank (plan_triggers known name ts p)
  unfolding plan_triggers dependencies_of
  plan_triggers-Plans name [] p f lt r = (p, refl, r)
  plan_triggers-Plans name (t ∷ ts) p f lt r = elim (Bool-cases (kind_eq t.kind task_dependency)) [
    | inr other ↦
        rw (plan_triggers-other known name t ts p other) (plan_triggers-Plans name ts p f.1 lt.1 r)
    | inl task ↦
        let f0 = f.0 in
        let (q, runs, r') =
          plan_dependencies-Plans name (length (list_at name p.states)) [] 0 t.task_dependencies
            (add_state name t p) (rw task at f0.registered) (rw task at f0.no_self)
            (rw task at f0.distinct) (none_seen t.task_dependencies) (rw task at lt.0) r in
        rw (plan_triggers-task known name t ts p task (ground (arith, f0.some_dependency)), runs)
          (plan_triggers-Plans name ts q f.1 lt.1 r')
  ]

  plan_components-Plans :
      (cs : Components) (p : Plan)
      → AllFit known cs
      → Ordered rank cs
      → Rises rank p
      → Plans rank (plan_components known cs p)
  unfolding plan_components
  plan_components-Plans [] p f lt r = (p, refl, r)
  plan_components-Plans ((name, c) ∷ cs) p f lt r =
      let (q, runs, r') = plan_triggers-Plans name c.spec.triggers p f.0 lt.0 r in
      rw (plan_components-next known name c cs p q runs) (plan_components-Plans cs q f.1 lt.1 r')

start_plan-Rises : (rank : String → ℕ) (cs : Components) → Rises rank (start_plan cs)
unfolding list_at contains lookup
start_plan-Rises rank cs u c h = ground arith

-- If every dependency of a task is registered, listed once and another task, every such trigger has
-- one, and the components have an order in which each stands behind every task that it waits for,
-- `InstallTaskTriggers` accepts them.
pub Ordered-install :
    (s : Impl) (rank : String → ℕ)
    → Distinct (keys s.components)
    → AllFit (keys s.components) s.components
    → Ordered rank s.components
    → (t : Impl) × (install_task_triggers s ≡ value t)
Ordered-install s rank distinct fits lt =
    let (p, planned_, rises) =
      plan_components-Plans (keys s.components) rank s.components (start_plan s.components) fits lt
        (start_plan-Rises rank s.components) in
    let so = (Sound-planned s distinct planned_).0 in
    (
      installed s p,
      accepts_plan s p planned_ (
          visits_acyclic s.components p (
            IsRanked-visit (graph_of s distinct p so) p.indegree (starts s distinct p so) rank
              (λ u c node edge. rises u c edge))),
    )
