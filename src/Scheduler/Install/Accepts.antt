-- ===== src/Scheduler/Install/Accepts.antt =====
-- `InstallTaskTriggers` accepts a set of components exactly if their tasks can be ordered.
use text.Mathlib.TextPositions.{eq_refl}
use puppet_master.Base.{
  ℕ, suc, ◌<◌, ◌≡◌, refl, ap, sym, subst, ◌∙◌, String, List, [], ◌∷◌, true, All, some, contains,
  Distinct, keys, lookup, arith, inl, inr, length,
}
use puppet_master.Core.Trigger.{TriggerSpec}
use puppet_master.Core.Result.{Result-cases, value}
use puppet_master.Scheduler.State.{Impl}
use puppet_master.Scheduler.Graph.{visit, sources}
use puppet_master.Scheduler.Graph.Counts.{occurs}
use puppet_master.Scheduler.Graph.Remaining.{remaining}
use puppet_master.Scheduler.Graph.Order.{Graph}
use puppet_master.Scheduler.Graph.Acyclic.{visit_ends, Starts, visit-IsRanked}
use puppet_master.Scheduler.Install.{
  Components, Plan, list_at, plan_triggers, plan_components, successors, zeros, is_acyclic,
  install_states, install_task_triggers,
}
use puppet_master.Scheduler.Install.Edges.{OnValue, Sound, Keeps}
use puppet_master.Scheduler.Install.Plans.{
  dependencies_of, OnValue-map, OnValue-bind, Edge, Tied, AllTied, All-map, Edge-Keeps, Done,
  plan_triggers-Done,
}

-- Every component's rank is above those of the tasks that it waits for.
abbrev pub Ordered : (String → ℕ) → Components → Type 0
Ordered rank cs =
    All
      (λ entry.
        All (λ t. All (λ up. rank up < rank entry.0) (dependencies_of t)) entry.1.spec.triggers)
      cs

pub keys-known : (cs : Components) → All (λ entry. contains entry.0 (keys cs) ≡ true) cs
unfolding contains
keys-known [] = tt
keys-known ((k, c) ∷ cs) = (
  ground (arith, eq_refl k),
  All-map (λ entry. contains entry.0 (keys cs) ≡ true) _ (λ e h. ground arith) cs (keys-known cs),
)

abbrev pub start_plan : Components → Plan
start_plan cs = record { dependents = []; states = []; indegree = zeros cs }

keys-zeros : (cs : Components) → keys (zeros cs) ≡ keys cs
unfolding zeros
keys-zeros [] = refl
keys-zeros ((k, c) ∷ cs) = ap (λ ks. k ∷ ks) (keys-zeros cs)

lookup-zeros :
    (c : String) (cs : Components) → contains c (keys cs) ≡ true → lookup c (zeros cs) ≡ some 0
unfolding zeros contains lookup
lookup-zeros c [] h = ground arith
lookup-zeros c ((k, e) ∷ cs) h = ground (arith, lookup-zeros c cs)

remaining-none : (us : List String) (c : String) → remaining (λ u. []) us [] c ≡ 0
unfolding remaining contains occurs
remaining-none [] c = refl
remaining-none (u ∷ us) c = ground (arith, remaining-none us c)

start_plan-Sound : (cs : Components) → Sound (keys cs) (start_plan cs)
unfolding list_at contains lookup
start_plan-Sound cs = record {
  same = keys-zeros cs;
  counted = λ c h. lookup-zeros c cs h ∙ ap some (sym (remaining-none (keys cs) c));
  closed = λ u node c edge. ground arith;
}

module _ (nodes : List String) (distinct : Distinct nodes) where
  AllTied-Keeps :
      (p q : Plan)
      → Keeps p q
      → (name : String) (ts : List TriggerSpec) → All (Tied nodes distinct p name) ts
      → All (Tied nodes distinct q name) ts
  AllTied-Keeps p q k name ts =
      All-map (Tied nodes distinct p name) (Tied nodes distinct q name)
        (λ t.
          All-map (Edge nodes distinct p name) (Edge nodes distinct q name)
            (Edge-Keeps nodes distinct p q k name) (dependencies_of t))
        ts

  plan_components-Done :
      (cs : Components) (p : Plan)
      → All (λ entry. contains entry.0 nodes ≡ true) cs
      → Sound nodes p
      → OnValue
          (Done nodes distinct (λ q. AllTied nodes distinct q cs) p)
          (plan_components nodes cs p)
  unfolding plan_components
  plan_components-Done [] p h s = (s, (λ u c h. h), tt)
  plan_components-Done ((name, c) ∷ cs) p h s =
      OnValue-bind (Done nodes distinct (λ q. All (Tied nodes distinct q name) c.spec.triggers) p)
        (Done nodes distinct (λ q. AllTied nodes distinct q ((name, c) ∷ cs)) p)
        (plan_components nodes cs) (plan_triggers nodes name c.spec.triggers p)
        (plan_triggers-Done nodes distinct name h.0 c.spec.triggers p s)
        (λ q (s', k, ties).
          OnValue-map (Done nodes distinct (λ r. AllTied nodes distinct r cs) q) _
            (λ r (s2, k2, all_). (
              s2,
              (λ u c h. k2 u c (k u c h)),
              (AllTied-Keeps q r k2 name c.spec.triggers ties, all_),
            ))
            (plan_components nodes cs q) (plan_components-Done cs q h.1 s'))

length-keys : (cs : Components) → length (keys cs) ≡ length cs
length-keys [] = refl
length-keys (e ∷ cs) = ap suc (length-keys cs)

-- What an accepted installation planned.
pub accepted :
    (s t : Impl)
    → install_task_triggers s ≡ value t
    → (p : Plan) × (plan_components (keys s.components) s.components (start_plan s.components)
        ≡ value p)
      × (is_acyclic s.components p ≡ true)
unfolding install_task_triggers
accepted s t h =
    elim (Result-cases
      (plan_components (keys s.components) s.components (start_plan s.components))) [
        | inl (p, planned) ↦ (p, planned, ground arith)
        | inr (e, fails) ↦ absurd (ground arith)
      ]

-- The fields that an accepted installation sets.
abbrev pub installed : Impl → Plan → Impl
installed s p = record s {
  components = install_states p.states s.components;
  task_dependents = p.dependents;
}

pub accepts_plan :
    (s : Impl) (p : Plan)
    → plan_components (keys s.components) s.components (start_plan s.components) ≡ value p
    → is_acyclic s.components p ≡ true
    → install_task_triggers s ≡ value (installed s p)
unfolding install_task_triggers
accepts_plan s p planned acyclic = ground arith

acyclic_visits :
    (cs : Components) (p : Plan)
    → is_acyclic cs p ≡ true
    → visit (successors p) (length (keys cs)) p.indegree (sources p.indegree) 0
      ≡ some (length (keys cs))
unfolding is_acyclic
acyclic_visits cs p h = rw length-keys (ground arith)

pub visits_acyclic :
    (cs : Components) (p : Plan)
    → visit (successors p) (length (keys cs)) p.indegree (sources p.indegree) 0
      ≡ some (length (keys cs))
    → is_acyclic cs p ≡ true
unfolding is_acyclic
visits_acyclic cs p h = let h' = rw length-keys at h in ground arith

module _ (s : Impl) (distinct : Distinct (keys s.components)) where
  abbrev pub graph_of : (p : Plan) → Sound (keys s.components) p → Graph
  graph_of p so = record {
    nodes = keys s.components;
    dependents = successors p;
    distinct = distinct;
    closed = so.closed;
  }

  pub starts : (p : Plan) (so : Sound (keys s.components) p) → Starts (graph_of p so) p.indegree
  starts p so = record { same = so.same; counted = so.counted }

  plan_sound :
      OnValue
        (Done
          (keys s.components)
          distinct
          (λ q. AllTied (keys s.components) distinct q s.components)
          (start_plan s.components))
        (plan_components (keys s.components) s.components (start_plan s.components))
  plan_sound =
      plan_components-Done (keys s.components) distinct s.components (start_plan s.components)
        (keys-known s.components) (start_plan-Sound s.components)

  pub Sound-planned :
      {p : Plan}
      → plan_components (keys s.components) s.components (start_plan s.components) ≡ value p
      → Done
          (keys s.components)
          distinct
          (λ q. AllTied (keys s.components) distinct q s.components)
          (start_plan s.components)
          p
  Sound-planned e =
      subst
        (OnValue (
          Done (keys s.components) distinct
            (λ q. AllTied (keys s.components) distinct q s.components) (start_plan s.components)))
        e plan_sound

  -- If `InstallTaskTriggers` accepts, the components have an order in which each stands behind
  -- every task that it waits for.
  pub install-Ordered :
      (t : Impl)
      → install_task_triggers s ≡ value t
      → (rank : String → ℕ) × Ordered rank s.components
  install-Ordered t h =
      let (p, planned, acyclic) = accepted s t h in
      let (so, k, ties) = Sound-planned planned in
      let (rank, rises) =
        visit-IsRanked (graph_of p so) p.indegree (starts p so)
          (acyclic_visits s.components p acyclic) in
      (
        rank,
        All-map (λ entry. All (Tied (keys s.components) distinct p entry.0) entry.1.spec.triggers) _
            (λ entry.
              All-map (Tied (keys s.components) distinct p entry.0) _
                (λ tr.
                  All-map (Edge (keys s.components) distinct p entry.0) _
                    (λ up e. rises up entry.0 e.0 e.1) (dependencies_of tr))
                entry.1.spec.triggers)
            s.components ties,
      )

  -- Once the triggers are planned, the loop that visits the components ends, within as many rounds
  -- as there are components and with no count below zero.
  pub plan-visit_ends :
      (p : Plan)
      → plan_components (keys s.components) s.components (start_plan s.components) ≡ value p
      → (n : ℕ) × (visit (successors p) (length s.components) p.indegree (sources p.indegree) 0
          ≡ some n)
  plan-visit_ends p planned =
      let so = (Sound-planned planned).0 in
      let (last, m, ends, l) = visit_ends (graph_of p so) p.indegree (starts p so) in
      (
        length last,
        subst (λ k. visit (successors p) k p.indegree (sources p.indegree) 0 ≡ some (length last))
            (length-keys s.components) ends,
      )
