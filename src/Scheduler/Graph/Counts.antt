-- ===== src/Scheduler/Graph/Counts.antt =====
-- Counting names in lists: what the proofs about `InstallTaskTriggers` measure.
use text.Mathlib.TextEquality.{eq_iff}
use text.Mathlib.TextPositions.{eq_refl}
use puppet_master.Base.{
  ℕ, suc, ◌+◌, ◌≤◌, ◌<◌, ◌≡◌, inl, inr, String, List, [], ◌∷◌, ◌++◌, true, false, ◌=ₛ◌,
  if◌then◌else◌, contains, remove, Distinct, length, arith, Bool-cases, length-remove,
}

-- How often a name stands in a list.
unfoldable pub occurs : String → List String → ℕ
occurs k [] = 0
occurs k (x ∷ xs) = if x =ₛ k then suc (occurs k xs) else occurs k xs

-- The place of a name; the length of the list if it is not there.
unfoldable pub index_of : String → List String → ℕ
index_of k [] = 0
index_of k (x ∷ xs) = if x =ₛ k then 0 else suc (index_of k xs)

pub occurs-contains : (k : String) (xs : List String) → contains k xs ≡ true → 0 < occurs k xs
unfolding contains occurs
occurs-contains k [] h = ground arith
occurs-contains k (x ∷ xs) h = ground (arith, occurs-contains k xs)

pub contains-occurs : (k : String) (xs : List String) → 0 < occurs k xs → contains k xs ≡ true
unfolding contains occurs
contains-occurs k [] h = ground arith
contains-occurs k (x ∷ xs) h = ground (arith, contains-occurs k xs)

pub index_of-lt : (k : String) (xs : List String) → contains k xs ≡ true → index_of k xs < length xs
unfolding contains index_of
index_of-lt k [] h = ground arith
index_of-lt k (x ∷ xs) h = ground (arith, index_of-lt k xs)

pub index_of-append :
    (k : String) (xs ys : List String)
    → contains k xs ≡ true
    → index_of k (xs ++ ys) ≡ index_of k xs
unfolding contains index_of
index_of-append k [] ys h = ground arith
index_of-append k (x ∷ xs) ys h = ground (arith, index_of-append k xs ys)

pub index_of-snoc :
    (k : String) (xs : List String) → contains k xs ≡ false → index_of k (xs ++ k ∷ []) ≡ length xs
unfolding contains index_of
index_of-snoc k [] h = ground (arith, eq_refl k)
index_of-snoc k (x ∷ xs) h = ground (arith, index_of-snoc k xs)

-- Every name of the first list stands in the second.
abbrev pub Within : List String → List String → Type 0
Within xs ys = (k : String) → contains k xs ≡ true → contains k ys ≡ true

contains-remove_ne :
    (j k : String) (xs : List String)
    → (k =ₛ j) ≡ false
    → contains j xs ≡ true
    → contains j (remove k xs) ≡ true
unfolding contains remove
contains-remove_ne j k [] n h = ground arith
contains-remove_ne j k (x ∷ xs) n h = ground (arith, contains-remove_ne j k xs n, eq_iff x k)

pub contains-head : (x : String) (xs : List String) → contains x (x ∷ xs) ≡ true
unfolding contains
contains-head x xs = ground (arith, eq_refl x)

pub contains-tail :
    (k x : String) (xs : List String) → contains k xs ≡ true → contains k (x ∷ xs) ≡ true
unfolding contains
contains-tail k x xs h = ground arith

ne_of_absent :
    (k x : String) (xs : List String)
    → contains x xs ≡ false
    → contains k xs ≡ true
    → (x =ₛ k) ≡ false
ne_of_absent k x xs new h = ground (arith, eq_iff x k)

pub Within-length : (xs ys : List String) → Distinct xs → Within xs ys → length xs ≤ length ys
Within-length [] ys d w = omega arith
Within-length (x ∷ xs) ys (new, d) w = omega (
  arith,
  length-remove x ys (w x (contains-head x xs)),
  Within-length xs (remove x ys) d
      λ k h. contains-remove_ne k x ys (ne_of_absent k x xs new h) (w k (contains-tail k x xs h)),
)

Within-cons :
    (k : String) (xs ys : List String) → Within xs ys → contains k ys ≡ true → Within (k ∷ xs) ys
unfolding contains
Within-cons k xs ys w h j hj = ground (arith, eq_iff k j, w j)

-- A list of distinct names as long as one that it lies within has all of its names.
pub Within-full :
    (xs ys : List String) → Distinct xs → Within xs ys → length xs ≡ length ys → Within ys xs
unfolding contains
Within-full xs ys d w same k h = elim (Bool-cases (contains k xs)) [
  | inl there ↦ there
  | inr absent ↦
      absurd (
        omega (arith, Within-length (k ∷ xs) ys (absent, d) (λ j hj. Within-cons k xs ys w h j hj)))
]

pub occurs-append :
    (k : String) (xs ys : List String) → occurs k (xs ++ ys) ≡ occurs k xs + occurs k ys
unfolding occurs
occurs-append k [] ys = omega arith
occurs-append k (x ∷ xs) ys = ground (arith, occurs-append k xs ys)

pub occurs-one : (k x : String) → occurs k (x ∷ []) ≡ (if x =ₛ k then 1 else 0)
unfolding occurs
occurs-one k x = ground arith
