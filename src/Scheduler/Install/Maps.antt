-- ===== src/Scheduler/Install/Maps.antt =====
-- Laws of the maps that `InstallTaskTriggers` fills.
use text.Mathlib.TextEquality.{eq_iff}
use puppet_master.Base.{
  ℕ, ◌+◌, ◌≡◌, refl, String, List, [], ◌∷◌, ◌++◌, true, ◌=ₛ◌, if◌then◌else◌, some, contains,
  Distinct, lookup, keys, arith, false, Bool-cases, inl, inr,
}
use puppet_master.Scheduler.Install.{list_at, push_at, count_up}
use puppet_master.Scheduler.Graph.{Indegree}
use puppet_master.Scheduler.Graph.Counts.{occurs-append, occurs-one}
use puppet_master.Scheduler.Graph.Remaining.{remaining}

pub list_at-push_at {ℓ} :
    {V : Type ℓ} (k j : String) (v : V) (m : List (String × List V))
    → list_at j (push_at k v m) ≡ (if k =ₛ j then list_at j m ++ v ∷ [] else list_at j m)
unfolding list_at push_at lookup
list_at-push_at k j v [] = ground arith
list_at-push_at k j v ((i, vs) ∷ m) =
    ground (arith, list_at-push_at k j v m, eq_iff i k, eq_iff i j, eq_iff k j)

pub keys-count_up : (k : String) (m : Indegree) → keys (count_up k m) ≡ keys m
unfolding count_up
keys-count_up k [] = refl
keys-count_up k ((i, n) ∷ m) = ground (arith, keys-count_up k m)

pub lookup-count_up :
    (k j : String) (m : Indegree) (n : ℕ)
    → lookup j m ≡ some n
    → lookup j (count_up k m) ≡ some (if k =ₛ j then n + 1 else n)
unfolding lookup count_up
lookup-count_up k j [] n h = ground arith
lookup-count_up k j ((i, o) ∷ m) n h =
    ground (arith, lookup-count_up k j m n, eq_iff i k, eq_iff i j, eq_iff k j)

-- One more edge, from `up` to `name`.
module _ (f f' : String → List String) (up name c : String)
    (edge : (u : String) → f' u ≡ (if up =ₛ u then f u ++ name ∷ [] else f u)) where
  one_more : ℕ
  one_more = if name =ₛ c then 1 else 0

  remaining-same :
      (us : List String) → contains up us ≡ false → remaining f' us [] c ≡ remaining f us [] c
  unfolding remaining contains
  remaining-same [] h = refl
  remaining-same (u ∷ us) h = ground (arith, remaining-same us, edge u, eq_iff up u, eq_iff u up)

  pub remaining-add :
      (us : List String)
      → Distinct us
      → contains up us ≡ true
      → remaining f' us [] c ≡ remaining f us [] c + (if name =ₛ c then 1 else 0)
  unfolding remaining contains
  remaining-add [] d h = ground arith
  remaining-add (u ∷ us) (apart, d) h = elim (Bool-cases (u =ₛ up)) [
    | inl same ↦
        let e = (eq_iff u up).0 same in
        ground (
          arith,
          remaining-same us (rw e at apart),
          edge u,
          eq_iff up u,
          occurs-append c (f u) (name ∷ []),
          occurs-one c name,
        )
    | inr other ↦ ground (arith, remaining-add us d, edge u, eq_iff up u, eq_iff u up)
  ]
