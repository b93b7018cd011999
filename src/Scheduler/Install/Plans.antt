-- ===== src/Scheduler/Install/Plans.antt =====
-- What the first loops of `InstallTaskTriggers` leave: the edges of every dependency, once each.
use puppet_master.Base.{
  ℕ, suc, ◌≡◌, refl, String, List, [], ◌∷◌, true, false, ◌=ₛ◌, ◌||◌, not, if◌then◌else◌, All,
  contains, insert_last, Distinct, arith, Bool-cases, inl, inr, length,
}
use puppet_master.Core.Trigger.{TriggerSpec, kind_eq, empty, task_dependency}
use puppet_master.Core.Result.{Result, value, failure}
use puppet_master.Scheduler.Install.{
  Components, Plan, list_at, add_edge, add_state, plan_dependencies, plan_triggers, successors,
}
use puppet_master.Scheduler.Install.Edges.{
  OnValue, Sound, Keeps, add_edge-Keeps, add_edge-contains, add_edge-Sound, add_state-Sound,
}

-- The tasks that a trigger waits for.
unfoldable pub dependencies_of : TriggerSpec → List String
dependencies_of t = if kind_eq t.kind task_dependency then t.task_dependencies else []

pub OnValue-map {ℓ κ μ} :
    {A : Type ℓ} (P : A → Type κ) (Q : A → Type μ)
    → ((a : A) → P a → Q a)
    → (r : Result A) → OnValue P r
    → OnValue Q r
OnValue-map P Q f (failure e) h = tt
OnValue-map P Q f (value a) h = f a h

pub All-map {ℓ κ μ} :
    {A : Type ℓ} (P : A → Type κ) (Q : A → Type μ)
    → ((a : A) → P a → Q a)
    → (xs : List A) → All P xs
    → All Q xs
All-map P Q f [] h = tt
All-map P Q f (x ∷ xs) h = (f x h.0, All-map P Q f xs h.1)

-- What follows if the result is a value, and then if the next one is.
pub OnValue-bind {ℓ κ μ} :
    {A : Type ℓ} (P : A → Type κ) (Q : A → Type μ) (f : A → Result A) (r : Result A)
    → OnValue P r
    → ((a : A) → P a → OnValue Q (f a))
    → OnValue Q (elim r [ failure e ↦ failure e | value a ↦ f a ])
OnValue-bind P Q f (failure e) h k = tt
OnValue-bind P Q f (value a) h k = k a h

pub plan_dependencies-next :
    (known : List String) (name : String) (t : ℕ) (seen : List String) (i : ℕ) (up : String)
    (ups : List String) (p : Plan)
    → (up =ₛ name || contains up seen) ≡ false
    → contains up known ≡ true
    → plan_dependencies known name t seen i (up ∷ ups) p
      ≡ plan_dependencies known name t (insert_last up seen) (suc i) ups (add_edge name t i up p)
unfolding plan_dependencies
plan_dependencies-next known name t seen i up ups p fits k = rw (fits, k) refl

-- The component's trigger `t` is planned after its state.
abbrev pub planned : List String → String → TriggerSpec → Plan → Result Plan
planned known name t p =
    plan_dependencies known name (length (list_at name p.states)) [] 0 t.task_dependencies
      (add_state name t p)

pub plan_triggers-other :
    (known : List String) (name : String) (t : TriggerSpec) (ts : List TriggerSpec) (p : Plan)
    → kind_eq t.kind task_dependency ≡ false
    → plan_triggers known name (t ∷ ts) p ≡ plan_triggers known name ts p
unfolding plan_triggers
plan_triggers-other known name t ts p h = rw h refl

pub plan_triggers-task :
    (known : List String) (name : String) (t : TriggerSpec) (ts : List TriggerSpec) (p : Plan)
    → kind_eq t.kind task_dependency ≡ true
    → empty t.task_dependencies ≡ false
    → plan_triggers known name (t ∷ ts) p ≡ elim (planned known name t p) [
      | failure e ↦ failure e
      | value q ↦ plan_triggers known name ts q
    ]
unfolding plan_triggers
plan_triggers-task known name t ts p h some_ = rw (h, some_) refl

-- A trigger with no dependencies ends the planning.
plan_triggers-none :
    (P : Plan → Type 0) (known : List String) (name : String) (t : TriggerSpec)
    (ts : List TriggerSpec) (p : Plan)
    → kind_eq t.kind task_dependency ≡ true
    → empty t.task_dependencies ≡ true
    → OnValue P (plan_triggers known name (t ∷ ts) p)
unfolding plan_triggers
plan_triggers-none P known name t ts p h none_ = rw (h, none_, plan_triggers) tt

plan_dependencies-stops :
    (P : Plan → Type 0) (known : List String) (name : String) (t : ℕ) (seen : List String) (i : ℕ)
    (up : String) (ups : List String) (p : Plan)
    → (up =ₛ name || contains up seen || not (contains up known)) ≡ true
    → OnValue P (plan_dependencies known name t seen i (up ∷ ups) p)
unfolding plan_dependencies
plan_dependencies-stops P known name t seen i up ups p h = ground arith

module _ (nodes : List String) (distinct : Distinct nodes) where
  -- The dependency of `name` on `up` is an edge between components.
  abbrev pub Edge : Plan → String → String → Type 0
  Edge q name up = (contains up nodes ≡ true) × (contains name (successors q up) ≡ true)

  abbrev pub Tied : Plan → String → TriggerSpec → Type 0
  Tied q name t = All (Edge q name) (dependencies_of t)

  abbrev pub AllTied : Plan → Components → Type 0
  AllTied q cs = All (λ entry. All (Tied q entry.0) entry.1.spec.triggers) cs

  pub Edge-Keeps : (p q : Plan) → Keeps p q → (name up : String) → Edge p name up → Edge q name up
  Edge-Keeps p q k name up e = (e.0, k up name e.1)

  Tied-other :
      (q : Plan) (name : String) (t : TriggerSpec)
      → kind_eq t.kind task_dependency ≡ false
      → Tied q name t
  unfolding dependencies_of
  Tied-other q name t other = rw other tt

  Tied-task :
      (p q : Plan) (name : String) (t : TriggerSpec)
      → kind_eq t.kind task_dependency ≡ true
      → Keeps p q
      → All (Edge p name) t.task_dependencies
      → Tied q name t
  unfolding dependencies_of
  Tied-task p q name t task k edges =
      rw task
        (All-map (Edge p name) (Edge q name) (Edge-Keeps p q k name) t.task_dependencies edges)

  -- A sound plan with more edges, of which `Goal` holds.
  abbrev pub Done : (Plan → Type 0) → Plan → Plan → Type 0
  Done Goal p q = Sound nodes q × Keeps p q × Goal q

  module _ (name : String) (node : contains name nodes ≡ true) where
    plan_dependencies-Done :
        (t : ℕ) (seen : List String) (i : ℕ) (ups : List String) (p : Plan)
        → Sound nodes p
        → OnValue
            (Done (λ q. All (Edge q name) ups) p)
            (plan_dependencies nodes name t seen i ups p)
    unfolding plan_dependencies
    plan_dependencies-Done t seen i [] p s = (s, (λ u c h. h), tt)
    plan_dependencies-Done t seen i (up ∷ ups) p s =
        elim (Bool-cases (up =ₛ name || contains up seen || not (contains up nodes))) [
          | inl bad ↦ plan_dependencies-stops _ nodes name t seen i up ups p bad
          | inr fits ↦
              let p' = add_edge name t i up p in
              let known : contains up nodes ≡ true = ground arith in
              rw (plan_dependencies-next nodes name t seen i up ups p (ground arith) known) (
                OnValue-map (Done (λ q. All (Edge q name) ups) p')
                  (Done (λ q. All (Edge q name) (up ∷ ups)) p)
                  (λ q (s', k, all_). (
                    s',
                    (λ u c h. k u c (add_edge-Keeps name t i up p u c h)),
                    ((known, k up name (add_edge-contains name t i up p)), all_),
                  ))
                  (plan_dependencies nodes name t (insert_last up seen) (suc i) ups p')
                  (plan_dependencies-Done t (insert_last up seen) (suc i) ups p'
                    (add_edge-Sound nodes distinct name t i up p known node s)))
        ]

    pub plan_triggers-Done :
        (ts : List TriggerSpec) (p : Plan)
        → Sound nodes p
        → OnValue (Done (λ q. All (Tied q name) ts) p) (plan_triggers nodes name ts p)
    unfolding plan_triggers
    plan_triggers-Done [] p s = (s, (λ u c h. h), tt)
    plan_triggers-Done (t ∷ ts) p s = elim (Bool-cases (kind_eq t.kind task_dependency)) [
      | inr other ↦ rw (plan_triggers-other nodes name t ts p other) (
          OnValue-map (Done (λ q. All (Tied q name) ts) p) _
            (λ q (s', k, all_). (s', k, (Tied-other q name t other, all_)))
            (plan_triggers nodes name ts p) (plan_triggers-Done ts p s))
      | inl task ↦ elim (Bool-cases (empty t.task_dependencies)) [
        | inl none_ ↦ plan_triggers-none _ nodes name t ts p task none_
        | inr some_ ↦ rw (plan_triggers-task nodes name t ts p task some_) (
            OnValue-bind (Done (λ q. All (Edge q name) t.task_dependencies) (add_state name t p))
              (Done (λ q. All (Tied q name) (t ∷ ts)) p) (plan_triggers nodes name ts)
              (planned nodes name t p)
              (plan_dependencies-Done (length (list_at name p.states)) [] 0 t.task_dependencies
                (add_state name t p) (add_state-Sound nodes name t p s))
              (λ q (s', k, edges).
                OnValue-map (Done (λ r. All (Tied r name) ts) q) _
                  (λ r (s2, k2, all_).
                    (s2, (λ u c h. k2 u c (k u c h)), (Tied-task q r name t task k2 edges, all_)))
                  (plan_triggers nodes name ts q) (plan_triggers-Done ts q s')))
      ]
    ]
