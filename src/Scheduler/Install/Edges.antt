-- ===== src/Scheduler/Install/Edges.antt =====
-- The edges of `InstallTaskTriggers`: what one dependency adds to the graph.
use mathlib.Core.List.{map-append}
use text.Mathlib.TextEquality.{eq_iff}
use text.Mathlib.TextPositions.{eq_refl}
use puppet_master.Base.{
  ℕ, ◌<◌, ◌≡◌, refl, ap, ◌∙◌, String, List, [], ◌∷◌, ◌++◌, true, ◌=ₛ◌, if◌then◌else◌, contains,
  Distinct, keys, arith, Bool-cases, inl, inr, contains-append, some,
}
use puppet_master.Core.Trigger.{TriggerSpec}
use puppet_master.Core.Result.{Result, value, failure}
use puppet_master.Scheduler.Install.{Plan, add_edge, add_state, successors}
use puppet_master.Scheduler.State.{TaskDependent}
use puppet_master.Scheduler.Graph.Counts.{Within}
use puppet_master.Scheduler.Graph.Release.{Counted}
use puppet_master.Scheduler.Graph.Remaining.{remaining}
use puppet_master.Scheduler.Install.Maps.{
  list_at-push_at, keys-count_up, lookup-count_up, remaining-add,
}

-- A predicate on the value of a result, if there is one.
abbrev pub OnValue {ℓ κ} : {A : Type ℓ} → (A → Type κ) → Result A → Type κ
OnValue P (failure e) = Unit
OnValue P (value a) = P a

-- A plan's counts are those of its edges, and its edges stay among the components.
pub record Sound (nodes : List String) (plan : Plan) : Type 0 where
  pub same : keys plan.indegree ≡ nodes
  pub counted : Counted nodes plan.indegree (remaining (successors plan) nodes [])
  pub closed : (u : String) → contains u nodes ≡ true → Within (successors plan u) nodes

-- Every edge of the first plan is one of the second.
abbrev pub Keeps : Plan → Plan → Type 0
Keeps p q = (u c : String) → contains c (successors p u) ≡ true → contains c (successors q u) ≡ true

-- Every edge of the plan leads to a component of higher rank.
abbrev pub Rises : (String → ℕ) → Plan → Type 0
Rises rank p = (u c : String) → contains c (successors p u) ≡ true → rank u < rank c

component_of : TaskDependent → String
component_of d = d.component

pub successors-add_edge :
    (name : String) (t i : ℕ) (up : String) (p : Plan) (u : String)
    → successors (add_edge name t i up p) u
      ≡ (if up =ₛ u then successors p u ++ name ∷ [] else successors p u)
unfolding add_edge
successors-add_edge name t i up p u = elim (Bool-cases (up =ₛ u)) [
  | inl same ↦ rw (list_at-push_at, same, map-append) refl
  | inr other ↦ rw (list_at-push_at, other) refl
]

pub add_edge-Keeps :
    (name : String) (t i : ℕ) (up : String) (p : Plan) → Keeps p (add_edge name t i up p)
add_edge-Keeps name t i up p u c h =
    ground
      (arith, successors-add_edge name t i up p u, contains-append c (successors p u) (name ∷ []))

pub add_edge-contains :
    (name : String) (t i : ℕ) (up : String) (p : Plan)
    → contains name (successors (add_edge name t i up p) up) ≡ true
unfolding contains
add_edge-contains name t i up p = ground (
  arith,
  successors-add_edge name t i up p up,
  contains-append name (successors p up) (name ∷ []),
  eq_refl name,
  eq_refl up,
)

pub add_edge-Rises :
    (rank : String → ℕ) (name : String) (t i : ℕ) (up : String) (p : Plan)
    → rank up < rank name
    → Rises rank p
    → Rises rank (add_edge name t i up p)
unfolding contains
add_edge-Rises rank name t i up p lt r u c h = elim (Bool-cases (contains c (successors p u))) [
  | inl old ↦ r u c old
  | inr new ↦
      let both : (up ≡ u) × (name ≡ c) = ground (
        arith,
        successors-add_edge name t i up p u,
        contains-append c (successors p u) (name ∷ []),
        eq_iff up u,
        eq_iff name c,
      ) in
      rw (both.0, both.1) at lt
]

module _ (nodes : List String) (distinct : Distinct nodes) where
  pub add_edge-Sound :
      (name : String) (t i : ℕ) (up : String) (p : Plan)
      → contains up nodes ≡ true
      → contains name nodes ≡ true
      → Sound nodes p
      → Sound nodes (add_edge name t i up p)
  unfolding contains add_edge
  add_edge-Sound name t i up p known node s = record {
    same = keys-count_up name p.indegree ∙ s.same;
    counted = λ c h.
        lookup-count_up name c p.indegree _ (s.counted c h)
        ∙ ap some (
            ground (
              arith,
              remaining-add (successors p) (successors (add_edge name t i up p)) up name c
                  (successors-add_edge name t i up p) nodes distinct known,
            ));
    closed = λ u h c edge. ground (
      arith,
      s.closed u h c,
      successors-add_edge name t i up p u,
      contains-append c (successors p u) (name ∷ []),
      eq_iff name c,
    );
  }

pub add_state-Sound :
    (nodes : List String) (name : String) (t : TriggerSpec) (p : Plan)
    → Sound nodes p
    → Sound nodes (add_state name t p)
unfolding add_state
add_state-Sound nodes name t p s = record { same = s.same; counted = s.counted; closed = s.closed }

pub add_state-successors :
    (name : String) (t : TriggerSpec) (p : Plan) (u : String)
    → successors (add_state name t p) u ≡ successors p u
unfolding add_state
add_state-successors name t p u = refl
