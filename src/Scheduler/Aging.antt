-- ===== src/Scheduler/Aging.antt =====
-- Priority aging: a waiting event rises, so that newer work cannot keep it back for good.
use puppet_master.Base.{
  ℕ, ◌+◌, ◌-◌, ◌*◌, ◌/◌, ◌≤◌, ◌<◌, min, ◌≡◌, true, false, arith, ◌⊎◌, inl, inr, some, subst,
  get_elem?, contains, ltb, ltb→lt, Bool-cases,
}
use puppet_master.Base.Int.{pos, ◌+ℤ◌, ◌≤ℤ◌, +ℤ_parts}
use puppet_master.Scheduler.State.{Impl, ScheduledEvent, effective_priority, max_boost}
use puppet_master.Scheduler.Dispatch.{select}
use puppet_master.Scheduler.Selection.{outranks, Choice, select-Choice}

-- The levels that `k` full intervals of `n` give.
div-ge : (x n k : ℕ) → 0 < n → k * n ≤ x → k ≤ x / n
div-ge x n k h le = grind arith

le-mul : (n k : ℕ) → 0 < n → k ≤ k * n
le-mul n k h = grind arith

effective_priority_aged :
    (n now k : ℕ) (e : ScheduledEvent)
    → 0 < n
    → k * n ≤ now - e.queued_at
    → k ≤ max_boost
    → e.priority +ℤ pos k ≤ℤ effective_priority (pos n) e now
unfolding effective_priority
effective_priority_aged n now k e h le cap = ground (
  arith,
  le-mul n k h,
  div-ge (now - e.queued_at) n k h le,
  +ℤ_parts e.priority (pos k),
  +ℤ_parts e.priority (pos (min ((now - e.queued_at) / n) max_boost)),
)

div-eq-zero : (x n : ℕ) → x < n → x / n ≡ 0
div-eq-zero x n h = grind arith

effective_priority_fresh :
    (n now : ℕ) (f : ScheduledEvent)
    → now - f.queued_at < n
    → effective_priority (pos n) f now ≤ℤ f.priority
unfolding effective_priority
effective_priority_fresh n now f h = ground (
  arith,
  div-eq-zero (now - f.queued_at) n h,
  +ℤ_parts f.priority (pos (min ((now - f.queued_at) / n) max_boost)),
)

-- Starvation bound: with aging on, an event that has waited `d + 1` full intervals is taken before
-- every event that was queued less than one interval ago with a declared priority at most `d` higher.
pub aged-outranks :
    (n now d : ℕ) (e f : ScheduledEvent)
    → 0 < n
    → (d + 1) * n ≤ now - e.queued_at
    → d + 1 ≤ max_boost
    → now - f.queued_at < n
    → f.priority ≤ℤ e.priority +ℤ pos d
    → outranks (pos n) now e f ≡ true
aged-outranks n now d e f h waited cap fresh le = ground (
  arith,
  effective_priority_aged n now (d + 1) e h waited cap,
  effective_priority_fresh n now f fresh,
  +ℤ_parts e.priority (pos d),
  +ℤ_parts e.priority (pos (d + 1)),
)

-- Starvation bound of the dispatch: as long as an event waits whose component is free and that has
-- waited `d + 1` full intervals, a worker takes only events that have themselves waited an interval
-- or were declared more than `d` above it.
pub aged-select :
    (s : Impl) (n now d i j : ℕ) (e f : ScheduledEvent)
    → s.options.priority_aging_interval ≡ pos n
    → 0 < n
    → get_elem? s.pending_events j ≡ some e
    → contains e.component s.executing_components ≡ false
    → (d + 1) * n ≤ now - e.queued_at
    → d + 1 ≤ max_boost
    → (select s now).selected ≡ some (i, f)
    → (n ≤ now - f.queued_at) ⊎ ¬ (f.priority ≤ℤ e.priority +ℤ pos d)
aged-select s n now d i j e f on pos_ there free waited cap chosen =
    elim (Bool-cases (ltb (now - f.queued_at) n)) [
      | inr old ↦ inl (ground arith)
      | inl fresh ↦ inr (λ le.
          let best =
            subst
              (Choice s.executing_components s.options.priority_aging_interval now s.pending_events)
              chosen (select-Choice s now) in
          let unbeaten = rw on at (best.unbeaten j e there free) in
          cc (
            unbeaten,
            aged-outranks n now d e f pos_ waited cap (ltb→lt (now - f.queued_at) n fresh) le,
          ))
    ]
