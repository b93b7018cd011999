-- ===== src/Base/KeySets.antt =====
-- Laws of the sets of texts.
use Prim.Native.Nat.{ℕ, zero, suc}
use Prim.Native.String.{String}
use mathlib.Core.Path.{◌≡◌, refl, ap}
use mathlib.Core.Bool.{true, false, ◌||◌}
use mathlib.Core.Option.{some}
use mathlib.Core.List.{List, [], ◌∷◌, ◌++◌, map}
use native.Mathlib.Omega.{arith}
use text.Mathlib.TextEquality.{eq_iff}
use text.Mathlib.TextPositions.{eq_refl}
use puppet_master.Base.Lists.{length, get_elem?, erase_idx}
use puppet_master.Base.Keys.{contains, remove, Distinct}

pub contains-append :
    (k : String) (xs ys : List String) → contains k (xs ++ ys) ≡ (contains k xs || contains k ys)
unfolding contains
contains-append k [] ys = refl
contains-append k (x ∷ xs) ys = ground (arith, contains-append k xs ys)

pub contains-snoc_self : (k : String) (xs : List String) → contains k (xs ++ k ∷ []) ≡ true
unfolding contains
contains-snoc_self k [] = ground (arith, eq_refl k)
contains-snoc_self k (x ∷ xs) = ground (arith, contains-snoc_self k xs)

pub contains-middle : (k : String) (xs ys : List String) → contains k (xs ++ k ∷ ys) ≡ true
unfolding contains
contains-middle k [] ys = ground (arith, eq_refl k)
contains-middle k (x ∷ xs) ys = ground (arith, contains-middle k xs ys)

pub Distinct-middle :
    (k : String) (xs ys : List String) → Distinct (xs ++ k ∷ ys) → contains k xs ≡ false
unfolding contains
Distinct-middle k [] ys d = refl
Distinct-middle k (x ∷ xs) ys (apart, d) =
    ground (arith, Distinct-middle k xs ys d, contains-append x xs (k ∷ ys), eq_iff x k, eq_iff k x)

pub Distinct-snoc :
    (k : String) (xs : List String) → contains k xs ≡ false → Distinct xs → Distinct (xs ++ k ∷ [])
unfolding contains
Distinct-snoc k [] h d = (refl, tt)
Distinct-snoc k (x ∷ xs) h (new, d) =
    ground (arith, Distinct-snoc k xs, contains-append x xs (k ∷ []), eq_iff x k, eq_iff k x)

pub contains-remove :
    (j k : String) (xs : List String) → contains j xs ≡ false → contains j (remove k xs) ≡ false
unfolding contains remove
contains-remove j k [] h = refl
contains-remove j k (x ∷ xs) h = ground (arith, contains-remove j k xs)

pub Distinct-remove : (k : String) (xs : List String) → Distinct xs → Distinct (remove k xs)
unfolding remove
Distinct-remove k [] d = tt
Distinct-remove k (x ∷ xs) (new, d) =
    ground (arith, Distinct-remove k xs d, contains-remove x k xs new)

pub contains-remove_self :
    (k : String) (xs : List String) → Distinct xs → contains k (remove k xs) ≡ false
unfolding contains remove
contains-remove_self k [] d = refl
contains-remove_self k (x ∷ xs) (new, d) = ground (arith, contains-remove_self k xs d, eq_iff x k)

pub length-remove :
    (k : String) (xs : List String) → contains k xs ≡ true → length xs ≡ suc (length (remove k xs))
unfolding contains remove
length-remove k [] h = ground arith
length-remove k (x ∷ xs) h = ground (arith, length-remove k xs)

module _ {ℓ} {A : Type ℓ} (key : A → String) where
  pub contains-map :
      (xs : List A) (i : ℕ) {a : A} → get_elem? xs i ≡ some a → contains (key a) (map key xs) ≡ true
  unfolding contains
  contains-map [] i h = ground arith
  contains-map (x ∷ xs) zero {a} h = ground (arith, eq_refl (key a), ap (λ o. o) h)
  contains-map (x ∷ xs) (suc i) h = ground (arith, contains-map xs i h)

  -- To erase a place of the list is to remove its key.
  pub map-erase_idx :
      (xs : List A) (i : ℕ) {a : A}
      → get_elem? xs i ≡ some a
      → Distinct (map key xs)
      → map key (erase_idx xs i) ≡ remove (key a) (map key xs)
  unfolding remove
  map-erase_idx [] i h d = ground arith
  map-erase_idx (x ∷ xs) zero {a} h d = ground (arith, eq_refl (key a))
  map-erase_idx (x ∷ xs) (suc i) {a} h (new, d) =
      ground (arith, map-erase_idx xs i h d, contains-map xs i h, eq_iff (key x) (key a))
