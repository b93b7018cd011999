-- ===== src/Scheduler/Graph/Acyclic.antt =====
-- The check of `InstallTaskTriggers` against an order of the components.
use mathlib.Core.List.{append-nil}
use text.Mathlib.TextEquality.{eq_iff}
use puppet_master.Base.{
  ℕ, zero, suc, ◌<◌, ◌≡◌, ap, subst, ◌∙◌, String, List, [], ◌∷◌, true, ◌==◌, contains, Distinct,
  keys, lookup, arith, Bool-cases, some, length, inl, inr,
}
use puppet_master.Scheduler.Graph.{Indegree, visit, sources}
use puppet_master.Scheduler.Graph.Counts.{
  index_of, Within, Within-length, Within-full, contains-occurs,
}
use puppet_master.Scheduler.Graph.Release.{Counted}
use puppet_master.Scheduler.Graph.Remaining.{remaining, remaining-pos}
use puppet_master.Scheduler.Graph.Order.{Graph, Loop, visit-Loop}

never : {P : Type 0} (c : String) → contains c [] ≡ true → P
unfolding contains
never c h = ground arith

sources-Within : (m : Indegree) → Within (sources m) (keys m)
unfolding sources contains
sources-Within [] c h = ground arith
sources-Within ((k, i) ∷ m) c h = ground (arith, sources-Within m c)

sources-contains :
    (c : String) (m : Indegree) (n : ℕ)
    → Distinct (keys m)
    → lookup c m ≡ some n
    → contains c (sources m) ≡ (n == 0)
unfolding sources contains lookup
sources-contains c [] n d h = ground arith
sources-contains c ((k, i) ∷ m) n (apart, d) h =
    ground (arith, eq_iff k c, sources-contains c m n d, sources-Within m c)

sources-Distinct : (m : Indegree) → Distinct (keys m) → Distinct (sources m)
unfolding sources
sources-Distinct [] d = tt
sources-Distinct ((k, i) ∷ m) (apart, d) = ground (arith, sources-Distinct m d, sources-Within m k)

module _ (g : Graph) where
  open g use {nodes, dependents}

  -- The counts at the start: for each component, how many dependencies it has.
  pub record Starts (m : Indegree) : Type 0 where
    pub same : keys m ≡ nodes
    pub counted : Counted nodes m (remaining dependents nodes [])

  -- Every component stands above those that it depends on.
  abbrev pub IsRanked : (String → ℕ) → Type 0
  IsRanked rank =
      (u c : String) → contains u nodes ≡ true → contains c (dependents u) ≡ true → rank u < rank c

  module _ (m : Indegree) (s : Starts m) where
    Distinct-keys : Distinct (keys m)
    Distinct-keys = rw s.same g.distinct

    Loop-start : Loop g [] (sources m) m
    Loop-start = record {
      counted = s.counted;
      members = λ c h. sources-contains c m _ Distinct-keys (s.counted c h);
      distinct = sources-Distinct m Distinct-keys;
      within = λ c h. subst (λ ks. contains c ks ≡ true) s.same (sources-Within m c h);
      ordered = λ u c node in_ edge. never c in_;
    }

    -- The loop ends within as many rounds as there are components, and no count falls below zero.
    pub visit_ends :
        (last : List String) × (m' : Indegree) × (visit dependents (length nodes) m (sources m) 0
          ≡ some (length last))
        × Loop g last [] m'
    visit_ends = visit-Loop g (length nodes) [] (sources m) m (omega arith) Loop-start

    -- If it visits every component, the order of the visits puts each behind its dependencies.
    pub visit-IsRanked :
        visit dependents (length nodes) m (sources m) 0 ≡ some (length nodes)
        → (rank : String → ℕ) × IsRanked rank
    visit-IsRanked h =
        let (last, m', runs, l) = visit_ends in
        let same : length last ≡ length nodes = ground (arith, runs, h) in
        let full =
          Within-full last nodes (rw append-nil at l.distinct) (rw append-nil at l.within) same in
        (
          (λ c. index_of c last),
          λ u c node edge. (l.ordered u c node (full c (g.closed u node c edge)) edge).1,
        )

    covers :
        (rank : String → ℕ)
        → IsRanked rank
        → (last : List String) (m' : Indegree) → Loop g last [] m'
        → (k : ℕ) (c : String) → rank c < k
        → contains c nodes ≡ true
        → contains c last ≡ true
    covers rank r last m' l zero c lt node = absurd (omega arith)
    covers rank r last m' l (suc k) c lt node = elim (Bool-cases (contains c last)) [
      | inl there ↦ there
      | inr absent ↦
          let (u, from, open_, edge) =
            remaining-pos dependents nodes last c
              (ground (arith, l.members c node, append-nil last)) in
          let edge' = contains-occurs c (dependents u) edge in
          cc (covers rank r last m' l k u (omega (arith, r u c from edge')) from, open_)
    ]

    -- If the components can be ordered so, the loop visits every one of them.
    pub IsRanked-visit :
        (rank : String → ℕ)
        → IsRanked rank
        → visit dependents (length nodes) m (sources m) 0 ≡ some (length nodes)
    IsRanked-visit rank r =
        let (last, m', runs, l) = visit_ends in
        let lower =
          Within-length nodes last g.distinct
            (λ c node. covers rank r last m' l (suc (rank c)) c (omega arith) node) in
        let upper =
          Within-length last nodes (rw append-nil at l.distinct) (rw append-nil at l.within) in
        runs ∙ ap some (omega arith)
