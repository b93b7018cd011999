-- ===== src/Scheduler/Graph/Release.antt =====
-- What completing one component does to the counts and to the queue of ready components.
use mathlib.Core.List.{append_assoc}
use text.Mathlib.TextEquality.{eq_iff}
use text.Mathlib.TextPositions.{eq_refl}
use puppet_master.Base.{
  ℕ, suc, ◌-◌, ◌≤◌, ◌<◌, ◌≡◌, refl, ap, ◌∙◌, ltb, inl, inr, String, List, [], ◌∷◌, ◌++◌, Bool, true,
  false, ◌&&◌, ◌||◌, ◌=ₛ◌, ◌==◌, if◌then◌else◌, some, contains, Distinct, lookup, assign, arith,
  Bool-cases, contains-append, lookup-assign, Distinct-snoc,
}
use puppet_master.Scheduler.Graph.{Indegree, release}
use puppet_master.Scheduler.Graph.Counts.{occurs, Within, contains-head, contains-tail}

-- The map gives each component of the graph its count.
abbrev pub Counted : List String → Indegree → (String → ℕ) → Type 0
Counted nodes m d = (c : String) → contains c nodes ≡ true → lookup c m ≡ some (d c)

abbrev pub falls_to_zero : (String → ℕ) → List String → String → Bool
falls_to_zero d names c = ltb 0 (occurs c names) && d c == occurs c names

pub record Released (nodes before_ names ready : List String) (d : String → ℕ) (m' : Indegree)
    (ready' : List String) : Type 0 where
  pub counted : Counted nodes m' (λ c. d c - occurs c names)
  pub members : (c : String) → contains c ready' ≡ (contains c ready || falls_to_zero d names c)
  pub distinct : Distinct (before_ ++ ready')

occurs-cons_self : (x : String) (xs : List String) → occurs x (x ∷ xs) ≡ suc (occurs x xs)
unfolding occurs
occurs-cons_self x xs = ground (arith, eq_refl x)

-- The counts after the first of the names, whose count was `n + 1`.
abbrev lowered : String → ℕ → (String → ℕ) → String → ℕ
lowered x n d c = if x =ₛ c then n else d c

abbrev made_ready : String → ℕ → List String → List String
made_ready x n ready = if n == 0 then ready ++ x ∷ [] else ready

module _ (x : String) (names : List String) (n : ℕ) (d : String → ℕ) (first : d x ≡ suc n) where
  lowered-enough : (c : String) → occurs c (x ∷ names) ≤ d c → occurs c names ≤ lowered x n d c
  unfolding occurs
  lowered-enough c h = ground (arith, eq_iff x c)

  lowered-sub :
      (c : String)
      → occurs c (x ∷ names) ≤ d c
      → lowered x n d c - occurs c names ≡ d c - occurs c (x ∷ names)
  unfolding occurs
  lowered-sub c h = ground (arith, eq_iff x c)

  lowered-members :
      (c : String) (ready : List String)
      → occurs c (x ∷ names) ≤ d c
      → (contains c (made_ready x n ready) || falls_to_zero (lowered x n d) names c)
        ≡ (contains c ready || falls_to_zero d (x ∷ names) c)
  unfolding occurs contains
  lowered-members c ready h = ground (arith, eq_iff x c, contains-append c ready (x ∷ []))

  lowered-fresh :
      (c : String) (before_ ready : List String)
      → (0 < occurs c (x ∷ names) → contains c (before_ ++ ready) ≡ false)
      → occurs c (x ∷ names) ≤ d c
      → 0 < occurs c names
      → contains c (before_ ++ made_ready x n ready) ≡ false
  unfolding occurs contains
  lowered-fresh c before_ ready fresh h pos = ground (
    arith,
    eq_iff x c,
    contains-append c before_ ready,
    contains-append c ready (x ∷ []),
    contains-append c before_ (ready ++ x ∷ []),
  )

  lowered-Distinct :
      (before_ ready : List String)
      → contains x (before_ ++ ready) ≡ false
      → Distinct (before_ ++ ready)
      → Distinct (before_ ++ made_ready x n ready)
  lowered-Distinct before_ ready new h = elim (Bool-cases (n == 0)) [
    | inl done ↦ rw (done, ← append_assoc) (Distinct-snoc x (before_ ++ ready) new h)
    | inr more ↦ rw more h
  ]

  lowered-Counted :
      (nodes : List String) (m : Indegree)
      → contains x nodes ≡ true
      → Counted nodes m d
      → Counted nodes (assign x n m) (lowered x n d)
  lowered-Counted nodes m there counted c h =
      rw (lookup-assign x c n m (d x) (counted x there)) (ground (arith, counted c h))

release-cons :
    (x : String) (names : List String) (n : ℕ) (m : Indegree) (ready : List String)
    → lookup x m ≡ some (suc n)
    → release (x ∷ names) m ready ≡ release names (assign x n m) (made_ready x n ready)
unfolding release
release-cons x names n m ready h = rw (h, release)

module _ (nodes before_ : List String) where
  pub release-Released :
      (names : List String) (m : Indegree) (ready : List String) (d : String → ℕ)
      → Within names nodes
      → Counted nodes m d
      → ((c : String) → occurs c names ≤ d c)
      → ((c : String) → 0 < occurs c names → contains c (before_ ++ ready) ≡ false)
      → Distinct (before_ ++ ready)
      → (m' : Indegree) × (ready' : List String) × (release names m ready ≡ some (m', ready'))
        × Released nodes before_ names ready d m' ready'
  unfolding release occurs
  release-Released [] m ready d w counted enough fresh distinct = (
    m,
    ready,
    refl,
    record {
      counted = λ c h. ground (arith, counted c h);
      members = λ c. ground arith;
      distinct = distinct;
    },
  )
  release-Released (x ∷ names) m ready d w counted enough fresh distinct =
      let n = d x - 1 in
      let occ = occurs-cons_self x names in
      let first : d x ≡ suc n = omega (arith, enough x) in
      let there = w x (contains-head x names) in
      let (m', ready', runs, r) =
        release-Released names (assign x n m) (made_ready x n ready) (lowered x n d)
          (λ k h. w k (contains-tail k x names h))
          (lowered-Counted x names n d first nodes m there counted)
          (λ c. lowered-enough x names n d first c (enough c))
          (λ c. lowered-fresh x names n d first c before_ ready (fresh c) (enough c))
          (lowered-Distinct x names n d first before_ ready (fresh x (omega arith)) distinct) in
      (
        m',
        ready',
        release-cons x names n m ready (counted x there ∙ ap some first) ∙ runs,
        record {
          counted = λ c h. r.counted c h ∙ ap some (lowered-sub x names n d first c (enough c));
          members = λ c. r.members c ∙ lowered-members x names n d first c ready (enough c);
          distinct = r.distinct;
        },
      )
