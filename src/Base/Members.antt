-- ===== src/Base/Members.antt =====
-- What holds of all members of a list.
use Prim.Native.Nat.{ℕ, zero, suc}
use mathlib.Core.Path.{◌≡◌, subst}
use mathlib.Core.Option.{some}
use mathlib.Core.List.{List, [], ◌∷◌}
use puppet_master.Base.Lists.{All, set, erase_idx, get_elem?}

pub All-set {ℓ κ} :
    {A : Type ℓ} (P : A → Type κ) (xs : List A) (i : ℕ) (y : A)
    → All P xs
    → P y
    → All P (set xs i y)
All-set P [] i y h hy = h
All-set P (x ∷ xs) zero y (hx, h) hy = (hy, h)
All-set P (x ∷ xs) (suc i) y (hx, h) hy = (hx, All-set P xs i y h hy)

pub All-erase_idx {ℓ κ} :
    {A : Type ℓ} (P : A → Type κ) (xs : List A) (i : ℕ) → All P xs → All P (erase_idx xs i)
All-erase_idx P [] i h = h
All-erase_idx P (x ∷ xs) zero (hx, h) = h
All-erase_idx P (x ∷ xs) (suc i) (hx, h) = (hx, All-erase_idx P xs i h)

pub All-get_elem? {ℓ κ} :
    {A : Type ℓ} (P : A → Type κ) (xs : List A) (i : ℕ) (x : A)
    → All P xs
    → get_elem? xs i ≡ some x
    → P x
All-get_elem? P [] i x h e = cc
All-get_elem? P (y ∷ xs) zero x (hy, h) e = let e' : y ≡ x = cc in subst P e' hy
All-get_elem? P (y ∷ xs) (suc i) x (hy, h) e = All-get_elem? P xs i x h e

pub All-weaken {ℓ κ μ} :
    {A : Type ℓ} (P : A → Type κ) (Q : A → Type μ)
    → ((a : A) → P a → Q a)
    → (xs : List A) → All P xs
    → All Q xs
All-weaken P Q f [] h = tt
All-weaken P Q f (x ∷ xs) (h, hs) = (f x h, All-weaken P Q f xs hs)
