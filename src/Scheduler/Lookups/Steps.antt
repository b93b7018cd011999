-- ===== src/Scheduler/Lookups/Steps.antt =====
-- Every step keeps the recorded dependents resolved, so that no completion fails.
use text.Mathlib.TextEquality.{eq_iff}
use puppet_master.Base.{
  ℕ, ◌≡◌, refl, sym, subst, String, [], none, some, lookup, emplace, arith, OnSome, OnSome-some,
  inl, inr, ◌⊎◌, length, lookup-emplace, if_both, option_cases, ltb,
}
use puppet_master.Base.Int.{ℤ}
use puppet_master.Core.Status.{Status}
use puppet_master.Core.Trigger.{TriggerSpec, is_any}
use puppet_master.Core.Result.{Result-cases, Result, value, failure}
use puppet_master.Runtime.Component.{ComponentSpec}
use puppet_master.Scheduler.State.{
  Impl, TriggerState, ScheduledComponent, enqueue, queue_event, refuses,
}
use puppet_master.Scheduler.Triggers.{
  fire, data_trigger_at, on_data_available, put_data_trigger, mark_ready,
}
use puppet_master.Scheduler.Startup.{add_data_trigger, add_trigger_reader}
use puppet_master.Scheduler.Lifecycle.{register_component, begin_start, continues}
use puppet_master.Scheduler.Install.{install_task_triggers}
use puppet_master.Scheduler.Install.Resolve.{flags_at, triggers_of, install-Resolved}
use puppet_master.Scheduler.Lookups.{
  Kept, AllResolved, Kept-AllResolved, same-Kept, put_component-Kept, queue_event-Kept, Kept-trans,
}

emplace-Kept :
    (name : String) (c : ScheduledComponent) (s : Impl)
    → lookup name s.components ≡ none
    → Kept s (record s { components = emplace name c s.components })
unfolding triggers_of flags_at
emplace-Kept name c s absent = record {
  dependents = refl;
  triggers = λ k i n h. ground (arith, lookup-emplace name k c s.components absent, eq_iff name k);
}

abbrev added : String → ComponentSpec → Impl → Impl
added name spec s = record s {
  components =
      emplace name
        (record { spec = spec; data_trigger_readers = []; data_triggers = []; task_triggers = [] })
        s.components;
}

register_component_cases :
    (spec : ComponentSpec) (name : String) (s : Impl)
    → ((register_component (value spec) name s).1 ≡ s)
      ⊎ (lookup name s.components ≡ none)
        × ((register_component (value spec) name s).1 ≡ added name spec s)
unfolding register_component
register_component_cases spec name s = ground arith

pub register_component-Kept :
    (found : Result ComponentSpec) (name : String) (s : Impl)
    → Kept s (register_component found name s).1
unfolding register_component
register_component-Kept (failure e) name s = same-Kept s s refl refl
register_component-Kept (value spec) name s = elim (register_component_cases spec name s) [
  | inl same ↦ subst (Kept s) (sym same) (same-Kept s s refl refl)
  | inr (absent, new) ↦ subst (Kept s) (sym new) (emplace-Kept name _ s absent)
]

begin_start-installs :
    (caller : ℕ) (s t : Impl)
    → begin_start caller s ≡ continues t
    → (u : Impl) × (install_task_triggers s ≡ value u)
      × (t.components ≡ u.components)
      × (t.task_dependents ≡ u.task_dependents)
unfolding begin_start
begin_start-installs caller s t h = elim (Result-cases (install_task_triggers s)) [
  | inl (u, installed_) ↦ (u, installed_, ground arith, ground arith)
  | inr (e, fails) ↦ absurd (ground arith)
]

pub begin_start-Resolved :
    (caller : ℕ) (s t : Impl) → begin_start caller s ≡ continues t → AllResolved t
begin_start-Resolved caller s t h =
    let (u, installed_, cs, ds) = begin_start-installs caller s t h in
    Kept-AllResolved u t (same-Kept u t cs ds) (install-Resolved s u installed_)

pub add_data_trigger-Kept :
    (name : String) (spec : TriggerSpec) (s : Impl) (index : ℕ) (t : Impl)
    → add_data_trigger name spec s ≡ some (index, t)
    → Kept s t
unfolding add_data_trigger
add_data_trigger-Kept name spec s index t h =
    OnSome-some (λ r. Kept s r.1)
      (option_cases (OnSome (λ (r : ℕ × Impl). Kept s r.1)) (lookup name s.components) _ _
        (λ absent. tt) (λ c there. put_component-Kept name c _ s there (λ i n e. e)))
      h

pub add_trigger_reader-Kept :
    (name topic : String) (s : Impl) → Kept s (add_trigger_reader name topic s).1
unfolding add_trigger_reader
add_trigger_reader-Kept name topic s =
    option_cases (λ (r : Status × Impl). Kept s r.1) (lookup name s.components) _ _
      (λ absent. same-Kept s s refl refl)
      (λ c there. put_component-Kept name c _ s there (λ i n e. e))

pub enqueue-Kept :
    (name : String) (deadline priority : ℤ) (now : ℕ) (s : Impl)
    → Kept s (enqueue name deadline priority now s).1
unfolding enqueue queue_event
enqueue-Kept name deadline priority now s = same-Kept s _ (ground arith) (ground arith)

data_trigger_found :
    (name : String) (index : ℕ) (s : Impl) (c : ScheduledComponent) (t : TriggerState)
    → data_trigger_at name index s ≡ some (c, t)
    → lookup name s.components ≡ some c
unfolding data_trigger_at
data_trigger_found name index s c t h = ground arith

-- Firing a data trigger leaves the task triggers alone.
fire_data-Kept :
    (name : String) (index topic now : ℕ) (s : Impl) (c : ScheduledComponent) (t : TriggerState)
    → lookup name s.components ≡ some c
    → OnSome (Kept s) (fire t topic name (put_data_trigger name index c s) now s)
unfolding fire
fire_data-Kept name index topic now s c t there =
    let put : (t' : TriggerState) → Kept s (put_data_trigger name index c s t') =
      λ t'. put_component-Kept name c _ s there (λ i n e. e) in
    let t' = (mark_ready t topic).0 in
    if_both (OnSome (Kept s)) (is_any t.policy) _ _
      (queue_event-Kept name t.deadline t.priority now s)
      (if_both (OnSome (Kept s)) (ltb topic (length t.ready)) _ _
        (if_both (Kept s) (mark_ready t topic).1 _ _
          (Kept-trans s (put_data_trigger name index c s t') _ (put t')
            (queue_event-Kept name t.deadline t.priority now _))
          (put t'))
        tt)

pub on_data_available-Kept :
    (name : String) (trigger topic now : ℕ) (s : Impl)
    → OnSome (Kept s) (on_data_available name trigger topic now s)
unfolding on_data_available
on_data_available-Kept name trigger topic now s =
    if_both (OnSome (Kept s)) (refuses s) _ _ (same-Kept s s refl refl) (
      option_cases (OnSome (Kept s)) (data_trigger_at name trigger s) _ _ (λ absent. tt)
        (λ (c, t) there.
          fire_data-Kept name trigger topic now s c t
            (data_trigger_found name trigger s c t there)))
