-- ===== src/Scheduler/Dispatch.antt =====
-- src/scheduler/scheduler.cpp, `DispatchLoop`: which event a worker takes, and what follows when
-- the component has run. Between the two halves the component runs with the mutex released.
use puppet_master.Base.{
  ℕ, suc, ◌+◌, ◌-◌, ◌^◌, String, List, [], ◌∷◌, Bool, true, false, ◌&&◌, ◌||◌, not, ltb, ◌==◌,
  erase_idx, Option, none, some, if◌then◌else◌, contains, remove, insert_last, lookup,
}
use puppet_master.Base.Int.{ℤ, pos, negsuc, ltb_ℤ, eq_ℤ}
use puppet_master.Core.Status.{Status, is_ok}
use puppet_master.Scheduler.State.{Impl, ScheduledEvent, TaskDependent, effective_priority}
use puppet_master.Scheduler.Triggers.{notify_dependents}

-- The variables of the loop over the pending events.
pub record Selection : Type 0 where
  pub selected : Option (ℕ × ScheduledEvent)
  pub selected_priority : ℤ
  pub highest_declared : ℤ

-- `std::numeric_limits<std::int64_t>::min()`.
abbrev pub int64_min : ℤ
int64_min = negsuc (2 ^ 63 - 1)

abbrev pub max_ℤ : ℤ → ℤ → ℤ
max_ℤ a b = if ltb_ℤ a b then b else a

unfoldable pub improves : Option (ℕ × ScheduledEvent) → ℤ → ℤ → ScheduledEvent → Bool
improves none best effective candidate = true
improves (some (j, event)) best effective candidate =
    ltb_ℤ best effective || eq_ℤ effective best && ltb candidate.due_time event.due_time

-- One round for a candidate whose component is not executing.
unfoldable pub offer : ℤ → ℕ → ℕ → ScheduledEvent → Selection → Selection
unfolding improves
offer interval now i candidate sel =
    let highest = max_ℤ sel.highest_declared candidate.priority in
    let effective = effective_priority interval candidate now in
    if improves sel.selected sel.selected_priority effective candidate
    then record {
      selected = some (i, candidate);
      selected_priority = effective;
      highest_declared = highest;
    }
    else record sel { highest_declared = highest }

-- One round: candidate `i`.
unfoldable pub consider : List String → ℤ → ℕ → ℕ → ScheduledEvent → Selection → Selection
unfolding offer
consider executing interval now i candidate sel =
    if contains candidate.component executing then sel else offer interval now i candidate sel

unfoldable pub select_from : List String → ℤ → ℕ → ℕ → List ScheduledEvent → Selection → Selection
select_from executing interval now i [] sel = sel
select_from executing interval now i (e ∷ es) sel =
    select_from executing interval now (suc i) es (consider executing interval now i e sel)

abbrev pub no_selection : Selection
no_selection = record { selected = none; selected_priority = pos 0; highest_declared = int64_min }

unfoldable pub select : Impl → ℕ → Selection
unfolding select_from consider
select s now =
    select_from s.executing_components s.options.priority_aging_interval now 0 s.pending_events
      no_selection

-- What a worker does with the mutex: it leaves the loop, waits to be woken, or takes an event.
pub data Dispatch : Type 0 where
  leave wait : Dispatch
  take_event : ScheduledEvent → Impl → Dispatch

unfoldable pub take_selected : Impl → ℕ → ScheduledEvent → ℤ → Impl
take_selected s i event highest = record s {
  aged_dispatches =
      if ltb_ℤ event.priority highest then s.aged_dispatches + 1 else s.aged_dispatches;
  pending_events = erase_idx s.pending_events i;
  queued_components = remove event.component s.queued_components;
  executing_components = insert_last event.component s.executing_components;
  active_events = s.active_events + 1;
}

abbrev pub none_pending : Impl → Bool
none_pending s = elim s.pending_events [ [] ↦ true | _ ∷ _ ↦ false ]

-- The first half of a round, up to `ExecuteNow`.
unfoldable pub dispatch : Impl → ℕ → Dispatch
unfolding select take_selected
dispatch s now =
    if none_pending s
    then (if s.stopping then leave else wait)
    else let sel = select s now in
      elim sel.selected [
        | none ↦ wait
        | some (i, event) ↦ take_event event (take_selected s i event sel.highest_declared)
      ]

-- The counts and sets after the component of the event has run with that status.
unfoldable pub finish_event : ScheduledEvent → Status → Impl → Impl
finish_event event status s = record s {
  last_status = if is_ok status then s.last_status else status;
  dispatched_events = s.dispatched_events + 1;
  active_events = s.active_events - 1;
  executing_components = remove event.component s.executing_components;
}

-- `task_dependents.find(name)`.
abbrev pub dependents_of : String → Impl → List TaskDependent
dependents_of name s = elim (lookup name s.task_dependents) [ none ↦ [] | some ds ↦ ds ]

-- The second half of a round, with the status of the component's execution. `none` is an exception,
-- or a count of active events below zero.
unfoldable pub complete : ScheduledEvent → Status → ℕ → Impl → Option Impl
unfolding finish_event
complete event status now s =
    let s' = finish_event event status s in
    if s.active_events == 0
    then none
    else if is_ok status && not s.stopping
    then notify_dependents (dependents_of event.component s) now s'
    else some s'
