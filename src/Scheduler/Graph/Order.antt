-- ===== src/Scheduler/Graph/Order.antt =====
-- The loop of `InstallTaskTriggers`: it visits every component exactly if there is no cycle.
use mathlib.Core.List.{append_assoc}
use text.Mathlib.TextEquality.{eq_iff}
use puppet_master.Base.{
  ℕ, zero, suc, ◌+◌, ◌≤◌, ◌<◌, ◌≡◌, refl, ◌∙◌, ap, subst, String, List, [], ◌∷◌, ◌++◌, true, false,
  ◌||◌, ◌==◌, contains, Distinct, arith, Bool-cases, contains-append, contains-middle,
  Distinct-middle, some, length, length-append, length-snoc, inl, inr,
}
use puppet_master.Scheduler.Graph.{Indegree, release, visit}
use puppet_master.Scheduler.Graph.Counts.{
  occurs, index_of, index_of-lt, index_of-append, index_of-snoc, Within, Within-length,
  contains-occurs, occurs-contains,
}
use puppet_master.Scheduler.Graph.Release.{Counted, Released, release-Released, falls_to_zero}
use puppet_master.Scheduler.Graph.Remaining.{remaining, remaining-snoc}

-- The components and the edges between them.
pub record Graph : Type 0 where
  pub nodes : List String
  pub dependents : String → List String
  pub distinct : Distinct nodes
  pub closed : (u : String) → contains u nodes ≡ true → Within (dependents u) nodes

module _ (g : Graph) where
  open g use {nodes, dependents, closed}

  -- `done` holds the visited components in their order, `ready` those in the queue.
  pub record Loop (done ready : List String) (m : Indegree) : Type 0 where
    pub counted : Counted nodes m (remaining dependents nodes done)
    pub members :
        (c : String)
        → contains c nodes ≡ true
        → contains c (done ++ ready) ≡ (remaining dependents nodes done c == 0)
    pub distinct : Distinct (done ++ ready)
    pub within : Within (done ++ ready) nodes
    pub ordered :
        (u c : String)
        → contains u nodes ≡ true
        → contains c done ≡ true
        → contains c (dependents u) ≡ true
        → (contains u done ≡ true) × (index_of u done < index_of c done)

  module _ (done rest : List String) (x : String) (m : Indegree) (l : Loop done (x ∷ rest) m) where
    x-node : contains x nodes ≡ true
    x-node = l.within x (contains-middle x done rest)

    x-new : contains x done ≡ false
    x-new = Distinct-middle x done rest l.distinct

    taken :
        (c : String)
        → remaining dependents nodes (done ++ x ∷ []) c + occurs c (dependents x)
          ≡ remaining dependents nodes done c
    taken c = remaining-snoc dependents nodes done x c g.distinct x-node x-new

    x-free : remaining dependents nodes done x ≡ 0
    x-free = ground (arith, l.members x x-node, contains-middle x done rest)

    fresh :
        (c : String) → 0 < occurs c (dependents x) → contains c ((done ++ x ∷ []) ++ rest) ≡ false
    fresh c edge =
        let node = closed x x-node c (contains-occurs c (dependents x) edge) in
        rw append_assoc (ground (arith, l.members c node, taken c))

    -- Every component that `x` depends on is visited before it.
    x-last :
        (u : String)
        → contains u nodes ≡ true
        → contains x (dependents u) ≡ true
        → contains u done ≡ true
    x-last u node edge = elim (Bool-cases (contains u done)) [
      | inl before_ ↦ before_
      | inr open_ ↦ absurd (
          omega (
            arith,
            x-free,
            remaining-snoc dependents nodes done u x g.distinct node open_,
            occurs-contains x (dependents u) edge,
          ))
    ]

    is-x : (c : String) → contains c (done ++ x ∷ []) ≡ true → contains c done ≡ false → c ≡ x
    unfolding contains
    is-x c in_ absent = ground (arith, contains-append c done (x ∷ []), eq_iff x c)

    next-ordered :
        (u c : String)
        → contains u nodes ≡ true
        → contains c (done ++ x ∷ []) ≡ true
        → contains c (dependents u) ≡ true
        → (contains u (done ++ x ∷ []) ≡ true)
          × (index_of u (done ++ x ∷ []) < index_of c (done ++ x ∷ []))
    next-ordered u c node in_ edge = elim (Bool-cases (contains c done)) [
      | inl old ↦
          let (there, lt) = l.ordered u c node old edge in
          ground (
            arith,
            contains-append u done (x ∷ []),
            index_of-append u done (x ∷ []) there,
            index_of-append c done (x ∷ []) old,
          )
      | inr new ↦
          let same = is-x c in_ new in
          let there = x-last u node (rw same at edge) in
          rw same (
            ground (
              arith,
              contains-append u done (x ∷ []),
              index_of-append u done (x ∷ []) there,
              index_of-lt u done there,
              index_of-snoc x done x-new,
            ))
    ]

    module _ (m' : Indegree) (ready' : List String)
        (r : Released nodes
          (done ++ x ∷ [])
          (dependents x)
          rest
          (remaining dependents nodes done)
          m'
          ready') where
      split-ready :
          (c : String)
          → contains c ((done ++ x ∷ []) ++ ready') ≡ (
              contains c (done ++ x ∷ rest)
              || falls_to_zero (remaining dependents nodes done) (dependents x) c)
      split-ready c = ground (
        arith,
        r.members c,
        contains-append c (done ++ x ∷ []) ready',
        contains-append c (done ++ x ∷ []) rest,
        append_assoc done (x ∷ []) rest,
      )

      Loop-next : Loop (done ++ x ∷ []) ready' m'
      Loop-next = record {
        counted = λ c h. r.counted c h ∙ ap some (omega (arith, taken c));
        members = λ c h. ground (arith, split-ready c, l.members c h, taken c);
        distinct = r.distinct;
        within = λ k h. elim (Bool-cases (contains k (done ++ x ∷ rest))) [
          | inl before_ ↦ l.within k before_
          | inr new ↦
              closed x x-node k (contains-occurs k (dependents x) (ground (arith, split-ready k)))
        ];
        ordered = next-ordered;
      }

    Loop-step :
        (m' : Indegree) × (ready' : List String) × (release (dependents x) m rest
          ≡ some (m', ready'))
        × Loop (done ++ x ∷ []) ready' m'
    Loop-step =
        let (m', ready', runs, r) =
          release-Released nodes (done ++ x ∷ []) (dependents x) m rest
            (remaining dependents nodes done) (closed x x-node) l.counted
            (λ c. omega (arith, taken c)) fresh (rw append_assoc l.distinct) in
        (m', ready', runs, Loop-next m' ready' r)

  -- The loop ends, with nothing ready, on fuel for as many components as are not visited yet.
  pub visit-Loop :
      (fuel : ℕ) (done ready : List String) (m : Indegree)
      → length nodes ≤ length done + fuel
      → Loop done ready m
      → (last : List String) × (m' : Indegree) × (visit dependents fuel m ready (length done)
          ≡ some (length last))
        × Loop last [] m'
  unfolding visit
  visit-Loop fuel done [] m enough l = (done, m, refl, l)
  visit-Loop zero done (x ∷ rest) m enough l = absurd (
      omega (
        arith,
        Within-length (done ++ x ∷ rest) nodes l.distinct l.within,
        length-append done (x ∷ rest),
      ))
  visit-Loop (suc fuel) done (x ∷ rest) m enough l =
      let (m', ready', runs, l') = Loop-step done rest x m l in
      let (last, m2, ends, l2) =
        visit-Loop fuel (done ++ x ∷ []) ready' m' (omega (arith, length-snoc done x)) l' in
      (
        last,
        m2,
        rw (runs, visit)
            (subst (λ n. visit dependents fuel m' ready' n ≡ some (length last))
              (length-snoc done x) ends),
        l2,
      )
