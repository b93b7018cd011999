-- ===== src/Scheduler/Lookups.antt =====
-- The lookups of a completed task never fail: `components.at`, `task_triggers.at` and the flags.
pub mod Completion
pub mod Steps
pub mod Runs
use text.Mathlib.TextEquality.{eq_iff}
use puppet_master.Base.{
  ℕ, zero, suc, ◌+◌, ◌<◌, ◌≡◌, refl, ap, sym, subst, ◌∙◌, String, List, [], ◌∷◌, ◌++◌, Bool, true,
  false, ◌=ₛ◌, not, ◌&&◌, ◌||◌, ◌==◌, if◌then◌else◌, All, Option, none, some, lookup, assign,
  emplace, arith, Bool-cases, Option-cases, inl, inr, length, set, get_elem?, length-set, replicate,
  ltb, all, lookup-assign, lookup-emplace, get_elem?-lt-length, erase_idx,
}
use puppet_master.Base.Int.{ℤ}
use puppet_master.Core.Status.{Status, is_ok}
use puppet_master.Core.Trigger.{is_any, TriggerSpec}
use puppet_master.Core.Result.{Result, value, failure}
use puppet_master.Runtime.Component.{ComponentSpec}
use puppet_master.Scheduler.State.{
  Impl, SchedulerOptions, TriggerState, TaskDependent, ScheduledComponent, ScheduledEvent,
  queue_event, enqueue, refuses,
}
use puppet_master.Scheduler.Triggers.{
  mark_ready, fire, put_component, put_data_trigger, put_task_trigger, data_trigger_at,
  task_trigger_at, on_data_available, notify_dependent, notify_dependents,
}
use puppet_master.Scheduler.Dispatch.{complete, finish_event, dependents_of}
use puppet_master.Scheduler.Install.{Components, list_at}
use puppet_master.Scheduler.Install.Resolve.{
  flags_at, triggers_of, Resolved, Extends, Resolved-Extends, install-Resolved,
}
use puppet_master.Scheduler.Install.Plans.{All-map}

-- The dependents stay recorded, and every task trigger keeps its place and its number of flags.
pub record Kept (s t : Impl) : Type 0 where
  pub dependents : t.task_dependents ≡ s.task_dependents
  pub triggers : Extends (triggers_of s.components) (triggers_of t.components)

-- Every recorded dependent names a trigger that is there and a flag of it.
abbrev pub AllResolved : Impl → Type 0
AllResolved s =
    (k : String) → All (Resolved (triggers_of s.components)) (list_at k s.task_dependents)

pub Kept-AllResolved : (s t : Impl) → Kept s t → AllResolved s → AllResolved t
Kept-AllResolved s t kept r k = rw (kept.dependents) (
    All-map (Resolved (triggers_of s.components)) _
      (Resolved-Extends (triggers_of s.components) (triggers_of t.components) kept.triggers)
      (list_at k s.task_dependents) (r k))

pub Kept-trans : (s t u : Impl) → Kept s t → Kept t u → Kept s u
Kept-trans s t u a b = record {
  dependents = b.dependents ∙ a.dependents;
  triggers = λ k i n h. b.triggers k i n (a.triggers k i n h);
}

-- An operation that leaves the components and the dependents alone.
pub same-Kept :
    (s t : Impl) → t.components ≡ s.components → t.task_dependents ≡ s.task_dependents → Kept s t
same-Kept s t cs ds = record { dependents = ds; triggers = λ k i n h. rw cs h }

triggers_of-assign :
    (name k : String) (c c' : ScheduledComponent) (cs : Components)
    → lookup name cs ≡ some c
    → triggers_of (assign name c' cs) k ≡ (if name =ₛ k then c'.task_triggers else triggers_of cs k)
unfolding triggers_of
triggers_of-assign name k c c' cs there = ground (arith, lookup-assign name k c' cs c there)

triggers_of-found :
    (k : String) (c : ScheduledComponent) (cs : Components)
    → lookup k cs ≡ some c
    → triggers_of cs k ≡ c.task_triggers
unfolding triggers_of
triggers_of-found k c cs there = ap (λ o. elim o [ none ↦ [] | some c ↦ c.task_triggers ]) there

-- Storing a component whose task triggers extend those of the one before.
pub put_component-Kept :
    (name : String) (c c' : ScheduledComponent) (s : Impl)
    → lookup name s.components ≡ some c
    → ((i n : ℕ) → flags_at c.task_triggers i ≡ some n → flags_at c'.task_triggers i ≡ some n)
    → Kept s (put_component name c' s)
put_component-Kept name c c' s there grows = record {
  dependents = refl;
  triggers = λ k i n h.
      let put = triggers_of-assign name k c c' s.components there in
      let old = triggers_of-found name c s.components there in
      elim (Bool-cases (name =ₛ k)) [
        | inl same ↦
            let e = (eq_iff name k).0 same in
            let before_ : flags_at c.task_triggers i ≡ some n =
              subst (λ ts. flags_at ts i ≡ some n) (ap (triggers_of s.components) (sym e) ∙ old)
                h in
            subst (λ ts. flags_at ts i ≡ some n) (sym (rw same at put)) (grows i n before_)
        | inr other ↦ subst (λ ts. flags_at ts i ≡ some n) (sym (rw other at put)) h
      ];
}

flags_at-set :
    (ts : List TriggerState) (j : ℕ) (t t' : TriggerState)
    → get_elem? ts j ≡ some t
    → length t'.ready ≡ length t.ready
    → (i n : ℕ) → flags_at ts i ≡ some n
    → flags_at (set ts j t') i ≡ some n
unfolding flags_at
flags_at-set [] j t t' at e i n h = ground arith
flags_at-set (u ∷ ts) zero t t' at e zero n h = ground (arith, at, e, h)
flags_at-set (u ∷ ts) zero t t' at e (suc i) n h = h
flags_at-set (u ∷ ts) (suc j) t t' at e zero n h = h
flags_at-set (u ∷ ts) (suc j) t t' at e (suc i) n h = flags_at-set ts j t t' at e i n h

length-replicate : (n : ℕ) (b : Bool) → length (replicate n b) ≡ n
length-replicate zero b = refl
length-replicate (suc n) b = ap suc (length-replicate n b)

mark_ready-length : (t : TriggerState) (i : ℕ) → length (mark_ready t i).0.ready ≡ length t.ready
unfolding mark_ready
mark_ready-length t i =
    ground (arith, length-set t.ready i true, length-replicate (length (set t.ready i true)) false)

pub queue_event-Kept :
    (name : String) (deadline priority : ℤ) (now : ℕ) (s : Impl)
    → Kept s (queue_event name deadline priority now s)
unfolding queue_event
queue_event-Kept name deadline priority now s = same-Kept s _ (ground arith) (ground arith)

-- A trigger with that flag fires or not, but does not fail.
fire-Kept :
    (t : TriggerState) (i : ℕ) (name : String) (put : TriggerState → Impl) (now : ℕ) (s : Impl)
    → i < length t.ready
    → ((t' : TriggerState) → length t'.ready ≡ length t.ready → Kept s (put t'))
    → (u : Impl) × (fire t i name put now s ≡ some u) × Kept s u
unfolding fire
fire-Kept t i name put now s lt stores = elim (Bool-cases (is_any t.policy)) [
  | inl any ↦ (
    queue_event name t.deadline t.priority now s,
    ground arith,
    queue_event-Kept name t.deadline t.priority now s,
  )
  | inr each ↦
      let t' = (mark_ready t i).0 in
      let stored = stores t' (mark_ready-length t i) in
      elim (Bool-cases (mark_ready t i).1) [
        | inl fires ↦ (
          queue_event name t.deadline t.priority now (put t'),
          ground arith,
          Kept-trans s (put t') _ stored (queue_event-Kept name t.deadline t.priority now (put t')),
        )
        | inr waits ↦ (put t', ground arith, stored)
      ]
]
