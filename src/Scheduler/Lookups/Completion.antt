-- ===== src/Scheduler/Lookups/Completion.antt =====
-- A completed task's notifications: no lookup fails.
use puppet_master.Base.{
  ℕ, ◌<◌, ◌≡◌, refl, ap, ◌∙◌, List, [], ◌∷◌, false, not, ◌&&◌, ◌==◌, All, none, some, lookup, arith,
  Bool-cases, Option-cases, inl, inr, length, get_elem?,
}
use puppet_master.Core.Status.{Status, is_ok}
use puppet_master.Scheduler.State.{
  Impl, TriggerState, TaskDependent, ScheduledComponent, ScheduledEvent,
}
use puppet_master.Scheduler.Triggers.{
  fire, put_task_trigger, task_trigger_at, notify_dependent, notify_dependents,
}
use puppet_master.Scheduler.Dispatch.{complete, finish_event, dependents_of}
use puppet_master.Scheduler.Install.{list_at}
use puppet_master.Scheduler.Install.Resolve.{flags_at, triggers_of, Resolved, Resolved-Extends}
use puppet_master.Scheduler.Install.Plans.{All-map}
use puppet_master.Scheduler.Lookups.{
  Kept, AllResolved, Kept-trans, same-Kept, put_component-Kept, flags_at-set, fire-Kept,
}

-- The trigger that a resolved dependent names.
found_trigger :
    (d : TaskDependent) (s : Impl)
    → Resolved (triggers_of s.components) d
    → (c : ScheduledComponent) × (t : TriggerState) × (lookup d.component s.components ≡ some c)
      × (get_elem? c.task_triggers d.trigger_index ≡ some t)
      × (d.dependency_index < length t.ready)
unfolding triggers_of flags_at
found_trigger d s (n, at, lt) = elim (Option-cases (lookup d.component s.components)) [
  | inl none_ ↦ absurd (ground arith)
  | inr (c, there) ↦ elim (Option-cases (get_elem? c.task_triggers d.trigger_index)) [
    | inl none_ ↦ absurd (ground arith)
    | inr (t, stored) ↦ (c, t, there, stored, ground arith)
  ]
]

notify_dependent-fire :
    (d : TaskDependent) (now : ℕ) (s : Impl) (c : ScheduledComponent) (t : TriggerState)
    → lookup d.component s.components ≡ some c
    → get_elem? c.task_triggers d.trigger_index ≡ some t
    → notify_dependent d now s
      ≡ fire t d.dependency_index d.component
          (put_task_trigger d.component d.trigger_index c s)
          now
          s
unfolding notify_dependent task_trigger_at
notify_dependent-fire d now s c t there stored =
    let found : task_trigger_at d.component d.trigger_index s ≡ some (c, t) = ground arith in
    ap
      (λ o. elim o [
        | none ↦ none
        | some (c, t) ↦
            fire t d.dependency_index d.component (put_task_trigger d.component d.trigger_index c s)
              now s
      ])
      found

notify_dependent-Kept :
    (d : TaskDependent) (now : ℕ) (s : Impl)
    → Resolved (triggers_of s.components) d
    → (u : Impl) × (notify_dependent d now s ≡ some u) × Kept s u
notify_dependent-Kept d now s r =
    let (c, t, there, stored, lt) = found_trigger d s r in
    let (u, fires, kept) =
      fire-Kept t d.dependency_index d.component (put_task_trigger d.component d.trigger_index c s)
        now s lt
        (λ t' same.
          put_component-Kept d.component c _ s there
            (flags_at-set c.task_triggers d.trigger_index t t' stored same)) in
    (u, notify_dependent-fire d now s c t there stored ∙ fires, kept)

notify_dependents-next :
    (d : TaskDependent) (ds : List TaskDependent) (now : ℕ) (s u : Impl)
    → notify_dependent d now s ≡ some u
    → notify_dependents (d ∷ ds) now s ≡ notify_dependents ds now u
unfolding notify_dependents
notify_dependents-next d ds now s u h =
    ap (λ o. elim o [ none ↦ none | some v ↦ notify_dependents ds now v ]) h

notify_dependents-Kept :
    (ds : List TaskDependent) (now : ℕ) (s : Impl)
    → All (Resolved (triggers_of s.components)) ds
    → (u : Impl) × (notify_dependents ds now s ≡ some u) × Kept s u
unfolding notify_dependents
notify_dependents-Kept [] now s r = (s, refl, same-Kept s s refl refl)
notify_dependents-Kept (d ∷ ds) now s r =
    let (u, runs, kept) = notify_dependent-Kept d now s r.0 in
    let (v, rest, kept2) = notify_dependents-Kept ds now u (
      All-map (Resolved (triggers_of s.components)) _
        (Resolved-Extends (triggers_of s.components) (triggers_of u.components) kept.triggers) ds
        r.1) in
    (v, notify_dependents-next d ds now s u runs ∙ rest, Kept-trans s u v kept kept2)

finish_event-Kept :
    (e : ScheduledEvent) (status : Status) (s : Impl) → Kept s (finish_event e status s)
unfolding finish_event
finish_event-Kept e status s = same-Kept s _ refl refl

-- With an active event, a completion succeeds.
pub complete-Kept :
    (e : ScheduledEvent) (status : Status) (now : ℕ) (s : Impl)
    → (s.active_events == 0) ≡ false
    → AllResolved s
    → (u : Impl) × (complete e status now s ≡ some u) × Kept s u
unfolding complete finish_event list_at
complete-Kept e status now s busy r =
    let done = finish_event-Kept e status s in
    elim (Bool-cases (is_ok status && not s.stopping)) [
      | inl notifies ↦
          let (u, runs, kept) =
            notify_dependents-Kept (dependents_of e.component s) now (finish_event e status s)
              (r e.component) in
          (u, ground arith, Kept-trans s (finish_event e status s) u done kept)
      | inr silent ↦ (finish_event e status s, ground arith, done)
    ]
