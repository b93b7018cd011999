-- ===== src/Scheduler/Invariant.antt =====
-- The queue and the sets of `Scheduler::Impl` agree, and no component runs on two workers at once.
use puppet_master.Base.{
  ℕ, ◌≡◌, refl, subst, ◌∙◌, inl, inr, [], ◌∷◌, ◌++◌, false, some, get_elem?, erase_idx, length,
  contains, Distinct, arith, Bool-cases, Option-cases, OnSome, OnSome-some, Distinct-snoc,
  Distinct-remove, map-erase_idx, length-erase_idx, OnSome, OnSome-some, ◌==◌, ◌&&◌, not,
  length-snoc,
}
use puppet_master.Base.Int.{ℤ}
use puppet_master.Core.Status.{Status, is_ok}
use puppet_master.Scheduler.State.{Impl, SchedulerOptions, ScheduledEvent}
use puppet_master.Scheduler.Dispatch.{
  Dispatch, take_event, none_pending, dispatch, finish_event, dependents_of, complete, select,
  take_selected,
}
use puppet_master.Scheduler.Lifecycle.{init, finish_stop}
use puppet_master.Scheduler.Selection.{Choice, select-Choice}
use puppet_master.Scheduler.System.{
  System, Step, register, start, installs_trigger, installs_reader, started, queue, data_arrives,
  worker_enters, worker_takes, worker_completes, worker_leaves, stop, stopped, Reach, here, next,
}
use puppet_master.Scheduler.Growth.{
  component_of, names, names-snoc, Queue, Grows, Same→Grows, enqueue-Grows, on_data_available-Grows,
  notify_dependents-Grows,
}
use puppet_master.Scheduler.Sameness.{
  register_component-Same, add_data_trigger-Same, add_trigger_reader-Same, begin_start-Same,
  begin_stop-Same, finish_start-Same, enter_worker-Same, leave_worker-Same,
}

-- The workers: `executing_components` names the events in flight, each component once, and
-- `active_events` counts them.
pub record Workers (s : System) : Type 0 where
  pub executing : s.impl.executing_components ≡ names s.in_flight
  pub exclusive : Distinct s.impl.executing_components
  pub active : s.impl.active_events ≡ length s.in_flight

pub record Inv (s : System) : Type 0 where
  pub queue : Queue s.impl
  pub workers : Workers s

-- An operation on the queue keeps the whole invariant.
Grows-Inv : (s : System) (t : Impl) → Grows s.impl t → Inv s → Inv (record s { impl = t })
Grows-Inv s t g v = record {
  queue = g.keeps v.queue;
  workers = record {
    executing = g.executing ∙ v.workers.executing;
    exclusive = rw g.executing v.workers.exclusive;
    active = g.active ∙ v.workers.active;
  };
}

take_selected-Inv :
    (s : System) (i : ℕ) (e : ScheduledEvent) (highest : ℤ)
    → get_elem? s.impl.pending_events i ≡ some e
    → contains e.component s.impl.executing_components ≡ false
    → Inv s
    → Inv (record { impl = take_selected s.impl i e highest; in_flight = s.in_flight ++ e ∷ [] })
unfolding take_selected
take_selected-Inv s i e highest at free v = record {
  queue = record {
    queued = cc (
      v.queue.queued,
      map-erase_idx component_of s.impl.pending_events i at (rw v.queue.queued at v.queue.distinct),
    );
    distinct = Distinct-remove e.component s.impl.queued_components v.queue.distinct;
  };
  workers = record {
    executing = cc (names-snoc s.in_flight e, v.workers.executing);
    exclusive = Distinct-snoc e.component s.impl.executing_components free v.workers.exclusive;
    active = omega (arith, v.workers.active, length-snoc s.in_flight e);
  };
}

finish_event-Inv :
    (s : System) (i : ℕ) (e : ScheduledEvent) (status : Status)
    → get_elem? s.in_flight i ≡ some e
    → Inv s
    → Inv (record { impl = finish_event e status s.impl; in_flight = erase_idx s.in_flight i })
unfolding finish_event
finish_event-Inv s i e status at v = record {
  queue = record { queued = v.queue.queued; distinct = v.queue.distinct };
  workers = record {
    executing = cc (
      v.workers.executing,
      map-erase_idx component_of s.in_flight i at (rw v.workers.executing at v.workers.exclusive),
    );
    exclusive = Distinct-remove e.component s.impl.executing_components v.workers.exclusive;
    active = omega (arith, v.workers.active, length-erase_idx s.in_flight i at);
  };
}

complete-Grows :
    (e : ScheduledEvent) (status : Status) (now : ℕ) (s : Impl)
    → OnSome (Grows (finish_event e status s)) (complete e status now s)
unfolding complete
complete-Grows e status now s = elim (Bool-cases (s.active_events == 0)) [
  | inl idle ↦ rw (idle, complete) tt
  | inr busy ↦ elim (Bool-cases (is_ok status && not s.stopping)) [
    | inl notifies ↦
        rw (busy, notifies, complete)
          (notify_dependents-Grows (dependents_of e.component s) now (finish_event e status s))
    | inr silent ↦
        rw (busy, silent, complete) (Same→Grows _ (finish_event e status s) (ground arith))
  ]
]

-- With nothing in flight no component is executing, so that the cleared counts are right.
finish_stop-Inv :
    (s : System) → s.in_flight ≡ [] → Inv s → Inv (record s { impl = finish_stop s.impl })
unfolding finish_stop
finish_stop-Inv s idle v = record {
  queue = record { queued = refl; distinct = tt };
  workers = record {
    executing = v.workers.executing;
    exclusive = v.workers.exclusive;
    active = rw idle;
  };
}

-- What a worker takes is the selection.
abbrev pub Taken : Impl → ℕ → Dispatch → Type 0
Taken s now (take_event e t) =
    (i : ℕ) × ((select s now).selected ≡ some (i, e))
    × (t ≡ take_selected s i e (select s now).highest_declared)
Taken s now _ = Unit

pub dispatch-Taken : (s : Impl) (now : ℕ) → Taken s now (dispatch s now)
unfolding dispatch
dispatch-Taken s now = elim (Bool-cases (none_pending s)) [
  | inl empty ↦ elim (Bool-cases s.stopping) [
    | inl ends ↦ rw (empty, ends, dispatch) tt
    | inr waits ↦ rw (empty, waits, dispatch) tt
  ]
  | inr some_ ↦ elim (Option-cases (select s now).selected) [
    | inl busy ↦ rw (some_, busy, dispatch) tt
    | inr ((i, e), chosen) ↦ rw (some_, chosen, dispatch) (i, chosen, refl)
  ]
]

dispatch-Inv :
    (s : System) (now : ℕ) (e : ScheduledEvent) (t : Impl)
    → dispatch s.impl now ≡ take_event e t
    → Inv s
    → Inv (record { impl = t; in_flight = s.in_flight ++ e ∷ [] })
dispatch-Inv s now e t h v =
    let (i, chosen, after) = subst (Taken s.impl now) h (dispatch-Taken s.impl now) in
    let best =
      subst
        (Choice s.impl.executing_components s.impl.options.priority_aging_interval now
          s.impl.pending_events)
        chosen (select-Choice s.impl now) in
    rw after
      (take_selected-Inv s i e (select s.impl now).highest_declared best.there best.eligible v)

-- Each step keeps the invariant.
Step-Inv : {s t : System} → Step s t → Inv s → Inv t
Step-Inv {s} (register found name) v =
    Grows-Inv s _ (Same→Grows s.impl _ (register_component-Same found name s.impl)) v
Step-Inv {s} (start caller t e) v =
    Grows-Inv s t (Same→Grows s.impl t (begin_start-Same caller s.impl e)) v
Step-Inv {s} (installs_trigger name spec index t h) v =
    Grows-Inv s t (Same→Grows s.impl t (add_data_trigger-Same name spec s.impl h)) v
Step-Inv {s} (installs_reader name topic) v =
    Grows-Inv s _ (Same→Grows s.impl _ (add_trigger_reader-Same name topic s.impl)) v
Step-Inv {s} started v = Grows-Inv s _ (Same→Grows s.impl _ (finish_start-Same s.impl)) v
Step-Inv {s} (queue name deadline priority now) v =
    Grows-Inv s _ (enqueue-Grows name deadline priority now s.impl) v
Step-Inv {s} (data_arrives name trigger topic now t e) v =
    Grows-Inv s t
      (OnSome-some (Grows s.impl) (on_data_available-Grows name trigger topic now s.impl) e) v
Step-Inv {s} (worker_enters id) v =
    Grows-Inv s _ (Same→Grows s.impl _ (enter_worker-Same id s.impl)) v
Step-Inv {s} (worker_takes now e t h) v = dispatch-Inv s now e t h v
Step-Inv {s} (worker_completes i e status now t at h) v =
    Grows-Inv (record { impl = finish_event e status s.impl; in_flight = erase_idx s.in_flight i })
      t (OnSome-some (Grows _) (complete-Grows e status now s.impl) h)
      (finish_event-Inv s i e status at v)
Step-Inv {s} (worker_leaves id) v =
    Grows-Inv s _ (Same→Grows s.impl _ (leave_worker-Same id s.impl)) v
Step-Inv {s} (stop from_start caller t e) v =
    Grows-Inv s t (Same→Grows s.impl t (begin_stop-Same from_start caller s.impl e)) v
Step-Inv {s} (stopped idle) v = finish_stop-Inv s idle v

-- Whatever the threads do, the queue's set names each pending event once, and no component is
-- executing on two workers at once, and the count of active events is right.
pub Reach-Inv : (options : SchedulerOptions) (s : System) → Reach options s → Inv s
unfolding init
Reach-Inv options s here = record {
  queue = record { queued = refl; distinct = tt };
  workers = record { executing = refl; exclusive = tt; active = refl };
}
Reach-Inv options t (next {s = s} r step) = Step-Inv step (Reach-Inv options s r)
