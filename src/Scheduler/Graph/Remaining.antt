-- ===== src/Scheduler/Graph/Remaining.antt =====
-- The dependencies of a component that are not completed yet.
use text.Mathlib.TextEquality.{eq_iff}
use puppet_master.Base.{
  ℕ, ◌+◌, ◌<◌, ◌≡◌, refl, String, List, [], ◌∷◌, ◌++◌, true, false, ◌=ₛ◌, if◌then◌else◌, contains,
  Distinct, arith, Bool-cases, contains-append, inl, inr, ltb, ltb→lt,
}
use puppet_master.Scheduler.Graph.Counts.{occurs, contains-head, contains-tail}

module _ (dependents : String → List String) where
  -- How many dependencies of `c` come from components among `us` that are not among `done`.
  unfoldable pub remaining : (us done : List String) → String → ℕ
  remaining [] done c = 0
  remaining (u ∷ us) done c =
      (if contains u done then 0 else occurs c (dependents u)) + remaining us done c

  remaining-snoc_absent :
      (us done : List String) (x c : String)
      → contains x us ≡ false
      → remaining us (done ++ x ∷ []) c ≡ remaining us done c
  unfolding remaining contains
  remaining-snoc_absent [] done x c h = refl
  remaining-snoc_absent (u ∷ us) done x c h = ground (
    arith,
    remaining-snoc_absent us done x c,
    contains-append u done (x ∷ []),
    eq_iff x u,
    eq_iff u x,
  )

  -- Completing `x` takes its edges away.
  pub remaining-snoc :
      (us done : List String) (x c : String)
      → Distinct us
      → contains x us ≡ true
      → contains x done ≡ false
      → remaining us (done ++ x ∷ []) c + occurs c (dependents x) ≡ remaining us done c
  unfolding remaining contains
  remaining-snoc [] done x c d h new = ground arith
  remaining-snoc (u ∷ us) done x c (apart, d) h new = elim (Bool-cases (u =ₛ x)) [
    | inl same ↦
        let e = (eq_iff u x).0 same in
        ground (
          arith,
          remaining-snoc_absent us done x c (rw e at apart),
          contains-append u done (x ∷ []),
          eq_iff u x,
          eq_iff x u,
        )
    | inr other ↦ ground (
      arith,
      remaining-snoc us done x c d,
      contains-append u done (x ∷ []),
      eq_iff u x,
      eq_iff x u,
    )
  ]

  abbrev Source : (us done : List String) → String → Type 0
  Source us done c =
      (u : String) × (contains u us ≡ true)
      × (contains u done ≡ false)
      × (0 < occurs c (dependents u))

  remaining-later :
      (u : String) (us done : List String) (c : String) → Source us done c → Source (u ∷ us) done c
  remaining-later u us done c (v, there, open_, edge) = (v, contains-tail v u us there, open_, edge)

  -- A dependency that is left comes from somewhere.
  pub remaining-pos :
      (us done : List String) (c : String)
      → 0 < remaining us done c
      → (u : String) × (contains u us ≡ true)
        × (contains u done ≡ false)
        × (0 < occurs c (dependents u))
  unfolding remaining
  remaining-pos [] done c h = absurd (omega arith)
  remaining-pos (u ∷ us) done c h = elim (Bool-cases (contains u done)) [
    | inl closed ↦ remaining-later u us done c (remaining-pos us done c (ground arith))
    | inr open_ ↦ elim (Bool-cases (ltb 0 (occurs c (dependents u)))) [
      | inl edge ↦ (u, contains-head u us, open_, ltb→lt _ _ edge)
      | inr none_ ↦ remaining-later u us done c (remaining-pos us done c (ground arith))
    ]
  ]
