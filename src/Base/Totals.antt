-- ===== src/Base/Totals.antt =====
-- Sums over lists, and counting.
use Prim.Native.Nat.{ℕ, zero, suc, ◌+◌}
use mathlib.Core.Path.{◌≡◌}
use mathlib.Core.Bool.{Bool, true, false}
use mathlib.Core.Option.{some}
use mathlib.Core.List.{List, [], ◌∷◌, ◌++◌}
use native.Mathlib.Omega.{arith}
use puppet_master.Base.Lists.{get_elem?, set, erase_idx}

abbrev pub total {ℓ} : {A : Type ℓ} → (A → ℕ) → List A → ℕ
total w [] = 0
total w (x ∷ xs) = w x + total w xs

pub total-append {ℓ} :
    {A : Type ℓ} (w : A → ℕ) (xs ys : List A) → total w (xs ++ ys) ≡ total w xs + total w ys
total-append w [] ys = omega arith
total-append w (x ∷ xs) ys = omega (arith, total-append w xs ys)

pub total-set {ℓ} :
    {A : Type ℓ} (w : A → ℕ) (xs : List A) (i : ℕ) (x y : A)
    → get_elem? xs i ≡ some x
    → total w (set xs i y) + w x ≡ total w xs + w y
total-set w [] i x y h = cc
total-set w (z ∷ xs) zero x y h = let e : w z ≡ w x = cc in omega (arith, e)
total-set w (z ∷ xs) (suc i) x y h = omega (arith, total-set w xs i x y h)

pub total-erase_idx {ℓ} :
    {A : Type ℓ} (w : A → ℕ) (xs : List A) (i : ℕ) (x : A)
    → get_elem? xs i ≡ some x
    → total w (erase_idx xs i) + w x ≡ total w xs
total-erase_idx w [] i x h = cc
total-erase_idx w (z ∷ xs) zero x h = let e : w z ≡ w x = cc in omega (arith, e)
total-erase_idx w (z ∷ xs) (suc i) x h = omega (arith, total-erase_idx w xs i x h)

abbrev pub one_if : Bool → ℕ
one_if true = 1
one_if false = 0
