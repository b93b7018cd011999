-- ===== src/Scheduler/Tests.antt =====
-- The scheduler at concrete inputs: a planner that waits for a camera.
use puppet_master.Base.{
  ℕ, String, [], ◌∷◌, false, ◌≡◌, refl, some, arith, subst, ◌≤◌, ◌⊎◌, Distinct, lookup, emplace,
  contains, remove,
}
use puppet_master.Base.Int.{pos, ◌+ℤ◌, ◌≤ℤ◌}
use puppet_master.Core.Status.{ok_status}
use puppet_master.Core.Result.{value}
use puppet_master.Core.Trigger.{validate_trigger_spec}
use puppet_master.Core.Names.{validate_name, has_control}
use puppet_master.Runtime.Component.{validate_spec, validate_endpoints, first_error}
use puppet_master.Scheduler.Spec.{validate_component_spec, validate_trigger, effective_deadline}
use puppet_master.Scheduler.Graph.{release, visit, sources}
use puppet_master.Scheduler.State.{Impl, enqueue, due_at, effective_priority}
use puppet_master.Scheduler.Dispatch.{take_event, dispatch, complete, select}
use puppet_master.Scheduler.Lifecycle.{
  init, register_component, begin_start, continues, validate_options,
}
use puppet_master.Scheduler.Install.{install_task_triggers, plan_components, successors, zeros}
use puppet_master.Scheduler.System.{Reach, here, next, register, start, queue, worker_takes}
use puppet_master.Scheduler.Selection.{Choice, select-Choice}
use puppet_master.Scheduler.Aging.{aged-select}
use puppet_master.Scheduler.Install.Plans.{dependencies_of}
use puppet_master.Scheduler.Install.Accepts.{Ordered, install-Ordered, start_plan, plan-visit_ends}
use puppet_master.Scheduler.Install.Wired.{AllFit, Ordered-install}
use puppet_master.Scheduler.Lookups.Runs.{Reach-complete}
use puppet_master.Scheduler.Invariant.{Inv, Reach-Inv}
use puppet_master.Scheduler.Samples.{
  options, manual_trigger, after_camera, component_spec, registered, sys, event, running, triggered,
  working, crowded, idle, ready, rank, plan,
}

starts_test : begin_start 1 registered ≡ continues running
unfolding begin_start register_component validate_component_spec validate_spec validate_name
    has_control validate_endpoints first_error validate_trigger_spec validate_trigger init lookup
    emplace validate_options install_task_triggers contains release effective_deadline
starts_test = refl

queues_test : (enqueue "camera" (pos 0) (pos 1) 5 running).1 ≡ triggered
unfolding enqueue due_at contains
queues_test = refl

takes_test : dispatch triggered 9 ≡ take_event (event "camera" (pos 1) 5) working
unfolding dispatch contains effective_priority remove
takes_test = refl

Reach-triggered : Reach options (sys triggered [])
Reach-triggered =
    let start' =
      next
        (next
          (next here (register (value (component_spec "camera" (manual_trigger ∷ []))) "camera"))
          (register (value (component_spec "planner" (after_camera ∷ []))) "planner"))
        (start 1 running starts_test) in
    subst (λ t. Reach options (sys t [])) queues_test
      (next start' (queue "camera" (pos 0) (pos 1) 5))

-- The camera is triggered and a worker takes it.
Reach-Inv_example : Inv (sys working (event "camera" (pos 1) 5 ∷ []))
Reach-Inv_example =
    Reach-Inv options (sys working (event "camera" (pos 1) 5 ∷ []))
      (next Reach-triggered (worker_takes 9 (event "camera" (pos 1) 5) working takes_test))

select-Choice_example : Choice [] (pos 10) 9 triggered.pending_events (select triggered 9).selected
select-Choice_example = select-Choice triggered 9

chooses_test : (select crowded 50).selected ≡ some (1, event "camera" (pos 1) 5)
unfolding select contains effective_priority ◌+ℤ◌
chooses_test = refl

free_test : contains "camera" [] ≡ false
unfolding contains
free_test = refl

aged-select_example : (10 ≤ 45) ⊎ ¬ (pos 1 ≤ℤ pos 1 +ℤ pos 2)
aged-select_example =
    aged-select crowded 10 50 2 1 1 (event "camera" (pos 1) 5) (event "camera" (pos 1) 5) refl
      (omega arith) refl free_test (omega arith) (omega arith) chooses_test

installs_test : install_task_triggers idle ≡ value ready
unfolding install_task_triggers lookup contains release effective_deadline
installs_test = refl

Distinct-test : Distinct ("camera" ∷ "planner" ∷ [])
unfolding contains
Distinct-test = (refl, (refl, tt))

install-Ordered_example : (rank : String → ℕ) × Ordered rank idle.components
install-Ordered_example = install-Ordered idle Distinct-test ready installs_test

fits_test : AllFit ("camera" ∷ "planner" ∷ []) idle.components
unfolding contains dependencies_of
fits_test = (
  (record { some_dependency = refl; registered = tt; no_self = refl; distinct = tt }, tt),
  (
    (
      record {
        some_dependency = refl;
        registered = (refl, tt);
        no_self = refl;
        distinct = (refl, tt);
      },
      tt,
    ),
    tt,
  ),
)

ranked_test : Ordered rank idle.components
unfolding dependencies_of
ranked_test = ((tt, tt), (((omega arith, tt), tt), tt))

Ordered-install_example : (t : Impl) × (install_task_triggers idle ≡ value t)
Ordered-install_example = Ordered-install idle rank Distinct-test fits_test ranked_test

plans_test :
    plan_components ("camera" ∷ "planner" ∷ []) idle.components (start_plan idle.components)
    ≡ value plan
unfolding plan_components zeros contains effective_deadline lookup
plans_test = refl

plan-visit_ends_example :
    (n : ℕ) × (visit (successors plan) 2 plan.indegree (sources plan.indegree) 0 ≡ some n)
plan-visit_ends_example = plan-visit_ends idle Distinct-test plan plans_test

Reach-working : Reach options (sys working (event "camera" (pos 1) 5 ∷ []))
Reach-working = next Reach-triggered (worker_takes 9 (event "camera" (pos 1) 5) working takes_test)

-- The camera's completion is notified to the planner.
Reach-complete_example :
    (t : Impl) × (complete (event "camera" (pos 1) 5) ok_status 12 working ≡ some t)
Reach-complete_example =
    Reach-complete options (sys working (event "camera" (pos 1) 5 ∷ [])) Reach-working 0
      (event "camera" (pos 1) 5) ok_status 12 refl
