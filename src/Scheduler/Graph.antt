-- ===== src/Scheduler/Graph.antt =====
-- src/scheduler/scheduler.cpp, the second part of `InstallTaskTriggers`: components are visited once
-- all tasks that they depend on are, and a cycle leaves some unvisited. The graph is a function from
-- a component to those that depend on it, as often as they do.
pub mod Counts
pub mod Release
pub mod Remaining
pub mod Order
pub mod Acyclic
use puppet_master.Base.{
  ℕ, zero, suc, ◌-◌, String, List, [], ◌∷◌, ◌++◌, Bool, ◌==◌, Option, none, some, if◌then◌else◌,
  lookup, assign, keys,
}

abbrev pub Indegree : Type 0
Indegree = List (String × ℕ)

-- `--indegree[name]` for each dependent; one that falls to zero is ready. `none` is a count below
-- zero.
unfoldable pub release : List String → Indegree → List String → Option (Indegree × List String)
release [] indegree ready = some (indegree, ready)
release (name ∷ names) indegree ready = elim (lookup name indegree) [
  | none ↦ none
  | some zero ↦ none
  | some (suc n) ↦
      release names (assign name n indegree) (if n == 0 then ready ++ name ∷ [] else ready)
]

-- The `while (!ready.empty())` loop, on fuel: the number of components visited.
unfoldable pub visit : (String → List String) → ℕ → Indegree → List String → ℕ → Option ℕ
visit dependents fuel indegree [] visited = some visited
visit dependents zero indegree (upstream ∷ ready) visited = none
visit dependents (suc fuel) indegree (upstream ∷ ready) visited =
    elim (release (dependents upstream) indegree ready) [
      | none ↦ none
      | some (indegree', ready') ↦ visit dependents fuel indegree' ready' (suc visited)
    ]

-- The names whose count is zero, in the order of the map.
unfoldable pub sources : Indegree → List String
sources [] = []
sources ((name, n) ∷ rest) = if n == 0 then name ∷ sources rest else sources rest
