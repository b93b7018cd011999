-- ===== src/Scheduler/Growth.antt =====
-- The event queue under the operations that may add to it.
use puppet_master.Base.{
  ℕ, ◌≡◌, refl, inl, inr, List, [], ◌∷◌, ◌++◌, String, map, Bool, true, false, length, contains,
  Distinct, arith, Bool-cases, Option-cases, OnSome, OnSome-some, OnSome-map, if◌then◌else◌, ltb,
  Distinct-snoc,
}
use puppet_master.Base.Int.{ℤ}
use puppet_master.Core.Trigger.{is_any}
use puppet_master.Scheduler.State.{
  Impl, TaskDependent, TriggerState, refuses, ScheduledEvent, queue_event, enqueue,
}
use puppet_master.Scheduler.Triggers.{
  fire, put_data_trigger, put_task_trigger, data_trigger_at, task_trigger_at, on_data_available,
  notify_dependent, notify_dependents,
}

abbrev pub component_of : ScheduledEvent → String
component_of e = e.component

abbrev pub names : List ScheduledEvent → List String
names = map component_of

-- The queue: `queued_components` names the pending events, each component once.
pub record Queue (s : Impl) : Type 0 where
  pub queued : s.queued_components ≡ names s.pending_events
  pub distinct : Distinct s.queued_components

pub names-snoc :
    (es : List ScheduledEvent) (e : ScheduledEvent)
    → names (es ++ e ∷ []) ≡ names es ++ e.component ∷ []
names-snoc [] e = refl
names-snoc (x ∷ es) e = cc (names-snoc es e)

pub queue_event-Queue :
    (name : String) (deadline priority : ℤ) (now : ℕ) (s : Impl)
    → Queue s
    → Queue (queue_event name deadline priority now s)
unfolding queue_event
queue_event-Queue name deadline priority now s q =
    elim (Bool-cases (contains name s.queued_components)) [
      | inl old ↦ rw (old, queue_event) (record { queued = q.queued; distinct = q.distinct })
      | inr new ↦
          rw (new, queue_event)
            (record {
              queued = rw (names-snoc, q.queued);
              distinct = Distinct-snoc name s.queued_components new q.distinct;
            })
    ]

-- An operation that leaves the queue, the workers' set and their count alone.
pub record Same (s t : Impl) : Type 0 where
  pub pending : t.pending_events ≡ s.pending_events
  pub queued : t.queued_components ≡ s.queued_components
  pub executing : t.executing_components ≡ s.executing_components
  pub active : t.active_events ≡ s.active_events

-- An operation that may queue events.
pub record Grows (s t : Impl) : Type 0 where
  pub keeps : Queue s → Queue t
  pub executing : t.executing_components ≡ s.executing_components
  pub active : t.active_events ≡ s.active_events

pub Same→Grows : (s t : Impl) → Same s t → Grows s t
Same→Grows s t h = record {
  keeps = λ q. record { queued = cc; distinct = rw h.queued q.distinct };
  executing = h.executing;
  active = h.active;
}

pub Grows-trans : (s t u : Impl) → Grows s t → Grows t u → Grows s u
Grows-trans s t u g h = record { keeps = λ q. h.keeps (g.keeps q); executing = cc; active = cc }

pub queue_event-Grows :
    (name : String) (deadline priority : ℤ) (now : ℕ) (s : Impl)
    → Grows s (queue_event name deadline priority now s)
unfolding queue_event
queue_event-Grows name deadline priority now s = record {
  keeps = queue_event-Queue name deadline priority now s;
  executing = ground arith;
  active = ground arith;
}

pub enqueue-Grows :
    (name : String) (deadline priority : ℤ) (now : ℕ) (s : Impl)
    → Grows s (enqueue name deadline priority now s).1
unfolding enqueue
enqueue-Grows name deadline priority now s = elim (Bool-cases (refuses s)) [
  | inl closed ↦ rw (closed, enqueue) (Same→Grows s s (ground arith))
  | inr open_ ↦ rw (open_, enqueue) (queue_event-Grows name deadline priority now s)
]

Grows-put :
    (name : String) (deadline priority : ℤ) (now : ℕ) (s u : Impl) (fires : Bool)
    → Same s u
    → Grows s (if fires then queue_event name deadline priority now u else u)
Grows-put name deadline priority now s u true same =
    Grows-trans s u _ (Same→Grows s u same) (queue_event-Grows name deadline priority now u)
Grows-put name deadline priority now s u false same = Same→Grows s u same

fire-Grows :
    (t : TriggerState) (i : ℕ) (name : String) (put : TriggerState → Impl) (now : ℕ) (s : Impl)
    → ((x : TriggerState) → Same s (put x))
    → OnSome (Grows s) (fire t i name put now s)
unfolding fire
fire-Grows t i name put now s same = elim (Bool-cases (is_any t.policy)) [
  | inl any ↦ rw (any, fire) (queue_event-Grows name t.deadline t.priority now s)
  | inr every ↦ elim (Bool-cases (ltb i (length t.ready))) [
    | inl there ↦ rw (every, there, fire) (Grows-put name t.deadline t.priority now s _ _ (same _))
    | inr beyond ↦ rw (every, beyond, fire) tt
  ]
]

pub on_data_available-Grows :
    (name : String) (i j now : ℕ) (s : Impl) → OnSome (Grows s) (on_data_available name i j now s)
unfolding on_data_available
on_data_available-Grows name i j now s = elim (Bool-cases (refuses s)) [
  | inl closed ↦ rw (closed, on_data_available) (Same→Grows s s (ground arith))
  | inr takes ↦ elim (Option-cases (data_trigger_at name i s)) [
    | inl absent ↦ rw (takes, absent, on_data_available) tt
    | inr ((c, t), found) ↦
        rw (takes, found, on_data_available)
          (fire-Grows t j name (put_data_trigger name i c s) now s (λ x. ground arith))
  ]
]

notify_dependent-Grows :
    (d : TaskDependent) (now : ℕ) (s : Impl) → OnSome (Grows s) (notify_dependent d now s)
unfolding notify_dependent
notify_dependent-Grows d now s =
    elim (Option-cases (task_trigger_at d.component d.trigger_index s)) [
      | inl absent ↦ rw (absent, notify_dependent) tt
      | inr ((c, t), found) ↦
          rw (found, notify_dependent)
            (fire-Grows t d.dependency_index d.component
              (put_task_trigger d.component d.trigger_index c s) now s (λ x. ground arith))
    ]

pub notify_dependents-Grows :
    (ds : List TaskDependent) (now : ℕ) (s : Impl) → OnSome (Grows s) (notify_dependents ds now s)
unfolding notify_dependents
notify_dependents-Grows [] now s = Same→Grows s s (ground arith)
notify_dependents-Grows (d ∷ ds) now s = elim (Option-cases (notify_dependent d now s)) [
  | inl absent ↦ rw (absent, notify_dependents) tt
  | inr (t, done) ↦
      rw (done, notify_dependents)
        (OnSome-map (Grows t) (Grows s)
          (λ u. Grows-trans s t u (OnSome-some (Grows s) (notify_dependent-Grows d now s) done))
          (notify_dependents ds now t) (notify_dependents-Grows ds now t))
]
