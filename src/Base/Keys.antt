-- ===== src/Base/Keys.antt =====
-- Sets of texts and maps keyed by texts (`std::unordered_set`, `std::map`), as lists in the order
-- of insertion, and the decimal form of a number (`std::to_string`).
use Prim.Native.Nat.{ℕ, zero, suc, ◌/◌, ◌%◌}
use Prim.Native.String.{String, ◌++◌ as ◌<>◌, compare}
use mathlib.Core.Path.{◌≡◌}
use mathlib.Core.Bool.{Bool, true, false, ◌||◌}
use mathlib.Core.Option.{Option, none, some}
use mathlib.Core.List.{List, [], ◌∷◌, ◌++◌}
use text.Mathlib.Text.{◌==◌, is_lt}
use text.Mathlib.TextEquality.{eq_iff}
use puppet_master.Base.Tests.{if◌then◌else◌, ltb, ◌==◌ as ◌=ₙ◌}

infix 50 ◌=ₛ◌
-- `operator==` of `std::string`.
abbrev pub ◌=ₛ◌ : String → String → Bool
a =ₛ b = a == b

pub =ₛ_iff : (s t : String) → ((s =ₛ t) ≡ true) → s ≡ t
=ₛ_iff s t h = (eq_iff s t).0 h

-- `operator<` of `std::string`.
abbrev pub before : String → String → Bool
before a b = is_lt (compare a b)

-- `set.find(key) != set.end()`.
unfoldable pub contains : String → List String → Bool
contains k [] = false
contains k (x ∷ xs) = x =ₛ k || contains k xs

-- `set.insert(key)` of a key that is not there, and `set.erase(key)`.
abbrev pub insert_last : String → List String → List String
insert_last k xs = xs ++ k ∷ []

unfoldable pub remove : String → List String → List String
remove k [] = []
remove k (x ∷ xs) = if x =ₛ k then xs else x ∷ remove k xs

-- No key stands twice.
abbrev pub Distinct : List String → Type 0
Distinct [] = Unit
Distinct (x ∷ xs) = (contains x xs ≡ false) × Distinct xs

module _ {ℓ} {V : Type ℓ} where
  abbrev pub keys : List (String × V) → List String
  keys [] = []
  keys ((k, v) ∷ m) = k ∷ keys m

  unfoldable pub lookup : String → List (String × V) → Option V
  lookup k [] = none
  lookup k ((j, v) ∷ m) = if j =ₛ k then some v else lookup k m

  -- `map.at(key) = v` for a key that is there; nothing for one that is not.
  unfoldable pub assign : String → V → List (String × V) → List (String × V)
  assign k v [] = []
  assign k v ((j, w) ∷ m) = if j =ₛ k then (j, v) ∷ m else (j, w) ∷ assign k v m

  -- `map.emplace(key, v)` for a key that is not there: `std::map` keeps its keys in order.
  unfoldable pub emplace : String → V → List (String × V) → List (String × V)
  emplace k v [] = (k, v) ∷ []
  emplace k v ((j, w) ∷ m) = if before k j then (k, v) ∷ (j, w) ∷ m else (j, w) ∷ emplace k v m

digit : ℕ → String
digit n =
    if n =ₙ 0
    then "0"
    else if n =ₙ 1
    then "1"
    else if n =ₙ 2
    then "2"
    else if n =ₙ 3
    then "3"
    else if n =ₙ 4
    then "4"
    else if n =ₙ 5
    then "5"
    else if n =ₙ 6
    then "6"
    else if n =ₙ 7
    then "7"
    else if n =ₙ 8
    then "8"
    else "9"

-- The digits of a number in front of `acc`. Each round divides by ten, so `n` rounds are enough
-- for the number `n`.
digits : ℕ → ℕ → String → String
digits zero n acc = digit n <> acc
digits (suc fuel) n acc =
    let rest = digits fuel (n / 10) (digit (n % 10) <> acc) in
    if ltb n 10 then digit n <> acc else rest

-- `std::to_string`.
unfoldable pub to_decimal : ℕ → String
unfolding digits digit
to_decimal n = digits n n ""
