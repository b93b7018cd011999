-- ===== src/Scheduler/Selection.antt =====
-- Which pending event `DispatchLoop` takes: the best one that may run.
use mathlib.Core.List.{append-nil, append_assoc}
use puppet_master.Base.{
  get_elem?-append_last, get_elem?-append_left, get_elem?-length, get_elem?-lt-length, length-snoc,
  ℕ, ◌<◌, ◌≡◌, refl, inl, inr, List, [], ◌∷◌, ◌++◌, String, Bool, true, false, ◌&&◌, ◌||◌, Option,
  none, some, ltb, contains, get_elem?, length, arith, Bool-cases,
}
use puppet_master.Base.Int.{ℤ, ltb_ℤ, eq_ℤ}
use puppet_master.Scheduler.State.{Impl, ScheduledEvent, effective_priority}
use puppet_master.Scheduler.Dispatch.{
  Selection, improves, offer, consider, select_from, no_selection, select,
}

-- The order of dispatch: a higher effective priority, or an equal one and an earlier due time.
abbrev pub outranks : ℤ → ℕ → ScheduledEvent → ScheduledEvent → Bool
outranks interval now a b =
    let p = effective_priority interval a now in
    let q = effective_priority interval b now in ltb_ℤ q p || eq_ℤ p q && ltb a.due_time b.due_time

module _ (interval : ℤ) (now : ℕ) where
  outranks_irrefl : (a : ScheduledEvent) → outranks interval now a a ≡ false
  outranks_irrefl a = ground arith

  outranks_asymm :
      (a b : ScheduledEvent) → outranks interval now a b ≡ true → outranks interval now b a ≡ false
  outranks_asymm a b h = ground arith

  outranks_weaken :
      (x e f : ScheduledEvent)
      → outranks interval now x e ≡ true
      → outranks interval now f e ≡ false
      → outranks interval now x f ≡ true
  outranks_weaken x e f h k = ground arith

module _ (executing : List String) (interval : ℤ) (now : ℕ) where
  abbrev Eligible : ScheduledEvent → Type 0
  Eligible e = contains e.component executing ≡ false

  -- Event `e` at place `i` of `es` is the first of the best.
  pub record IsBest (es : List ScheduledEvent) (i : ℕ) (e : ScheduledEvent) : Type 0 where
    pub there : get_elem? es i ≡ some e
    pub eligible : Eligible e
    pub unbeaten :
        (j : ℕ) (f : ScheduledEvent)
        → get_elem? es j ≡ some f
        → Eligible f
        → outranks interval now f e ≡ false
    pub first :
        (j : ℕ) (f : ScheduledEvent)
        → get_elem? es j ≡ some f
        → Eligible f
        → j < i
        → outranks interval now e f ≡ true

  abbrev pub Choice : List ScheduledEvent → Option (ℕ × ScheduledEvent) → Type 0
  Choice es none =
      (j : ℕ) (f : ScheduledEvent) → get_elem? es j ≡ some f → contains f.component executing ≡ true
  Choice es (some (i, e)) = IsBest es i e

  abbrev Scored : Selection → Option (ℕ × ScheduledEvent) → Type 0
  Scored sel none = Unit {0}
  Scored sel (some (i, e)) = sel.selected_priority ≡ effective_priority interval e now

  -- What the loop keeps about the events seen so far.
  abbrev Seen : List ScheduledEvent → Selection → Type 0
  Seen es sel = Choice es sel.selected × Scored sel sel.selected

  skip-IsBest :
      (es : List ScheduledEvent) (x : ScheduledEvent) (i : ℕ) (e : ScheduledEvent)
      → IsBest es i e
      → (Eligible x → outranks interval now x e ≡ false)
      → IsBest (es ++ x ∷ []) i e
  skip-IsBest es x i e b worse = record {
    there = get_elem?-append_left es (x ∷ []) i b.there;
    eligible = b.eligible;
    unbeaten = λ j f at el. elim (get_elem?-append_last es x j at) [
      | inl (old, _) ↦ b.unbeaten j f old el
      | inr (_, new) ↦ rw new (worse (rw new at el))
    ];
    first = λ j f at el lt. elim (get_elem?-append_last es x j at) [
      | inl (old, _) ↦ b.first j f old el lt
      | inr (last, _) ↦ absurd (omega (arith, get_elem?-lt-length es i b.there))
    ];
  }

  better-IsBest :
      (es : List ScheduledEvent) (x : ScheduledEvent) (i : ℕ) (e : ScheduledEvent)
      → IsBest es i e
      → Eligible x
      → outranks interval now x e ≡ true
      → IsBest (es ++ x ∷ []) (length es) x
  better-IsBest es x i e b el better = record {
    there = get_elem?-length es x;
    eligible = el;
    unbeaten = λ j f at fits. elim (get_elem?-append_last es x j at) [
      | inl (old, _) ↦
          outranks_asymm interval now x f
            (outranks_weaken interval now x e f better (b.unbeaten j f old fits))
      | inr (_, new) ↦ rw new (outranks_irrefl interval now x)
    ];
    first = λ j f at fits lt. elim (get_elem?-append_last es x j at) [
      | inl (old, _) ↦ outranks_weaken interval now x e f better (b.unbeaten j f old fits)
      | inr (last, _) ↦ absurd (omega arith)
    ];
  }

  only-IsBest :
      (es : List ScheduledEvent) (x : ScheduledEvent)
      → Choice es none
      → Eligible x
      → IsBest (es ++ x ∷ []) (length es) x
  only-IsBest es x c el = record {
    there = get_elem?-length es x;
    eligible = el;
    unbeaten = λ j f at fits. elim (get_elem?-append_last es x j at) [
      | inl (old, _) ↦ cc (c j f old)
      | inr (_, new) ↦ rw new (outranks_irrefl interval now x)
    ];
    first = λ j f at fits lt. elim (get_elem?-append_last es x j at) [
      | inl (old, _) ↦ cc (c j f old)
      | inr (last, _) ↦ absurd (omega arith)
    ];
  }

  -- An event that is passed over changes no choice.
  skip-Choice :
      (es : List ScheduledEvent) (x : ScheduledEvent) (c : Option (ℕ × ScheduledEvent))
      → contains x.component executing ≡ true
      → Choice es c
      → Choice (es ++ x ∷ []) c
  skip-Choice es x none busy h = λ j f at. elim (get_elem?-append_last es x j at) [
    | inl (old, _) ↦ h j f old
    | inr (_, new) ↦ rw new busy
  ]
  skip-Choice es x (some (i, e)) busy h = skip-IsBest es x i e h (λ el. cc)

  offer-Seen :
      (es : List ScheduledEvent) (x : ScheduledEvent) (c : Option (ℕ × ScheduledEvent)) (p q : ℤ)
      → Eligible x
      → Seen es (record { selected = c; selected_priority = p; highest_declared = q })
      → Seen (es ++ x ∷ []) (
          offer interval now
            (length es)
            x
            (record { selected = c; selected_priority = p; highest_declared = q }))
  unfolding offer improves
  offer-Seen es x none p q el (c, _) = (only-IsBest es x c el, refl)
  offer-Seen es x (some (i, e)) p q el (c, scored) = elim (Bool-cases (outranks interval now x e)) [
    | inl better ↦ rw (scored, offer, improves, better) (better-IsBest es x i e c el better, refl)
    | inr worse ↦ rw (scored, offer, improves, worse) (skip-IsBest es x i e c (λ _. worse), refl)
  ]

  consider-Seen :
      (es : List ScheduledEvent) (x : ScheduledEvent) (sel : Selection)
      → Seen es sel
      → Seen (es ++ x ∷ []) (consider executing interval now (length es) x sel)
  unfolding consider
  consider-Seen es x sel h = elim (Bool-cases (contains x.component executing)) [
    | inl busy ↦ rw (busy, consider) (skip-Choice es x sel.selected busy h.0, h.1)
    | inr free ↦
        rw (free, consider)
          (offer-Seen es x sel.selected sel.selected_priority sel.highest_declared free h)
  ]

  select_from-Seen :
      (es rest : List ScheduledEvent) (sel : Selection)
      → Seen es sel
      → Seen (es ++ rest) (select_from executing interval now (length es) rest sel)
  unfolding select_from
  select_from-Seen es [] sel h = rw append-nil h
  select_from-Seen es (x ∷ rest) sel h =
      let next = consider executing interval now (length es) x sel in
      let step = select_from-Seen (es ++ x ∷ []) rest next (consider-Seen es x sel h) in
      rw (append_assoc, length-snoc) at step

-- The event that a worker takes stands in the queue, its component is not executing, no event that
-- could run outranks it, and it outranks every one of those that was queued before it. Where no
-- event is chosen, every component with a pending event is executing.
pub select-Choice :
    (s : Impl) (now : ℕ)
    → Choice s.executing_components s.options.priority_aging_interval now s.pending_events
        (select s now).selected
unfolding select
select-Choice s now =
    (select_from-Seen s.executing_components s.options.priority_aging_interval now []
      s.pending_events no_selection ((λ j f at. cc), tt)).0
