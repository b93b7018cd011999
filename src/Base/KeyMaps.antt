-- ===== src/Base/KeyMaps.antt =====
-- Laws of the maps keyed by texts.
use Prim.Native.String.{String}
use mathlib.Core.Path.{◌≡◌, refl}
use mathlib.Core.Bool.{true}
use mathlib.Core.Option.{none, some}
use mathlib.Core.List.{List, [], ◌∷◌}
use native.Mathlib.Omega.{arith}
use text.Mathlib.TextEquality.{eq_iff}
use puppet_master.Base.Tests.{if◌then◌else◌}
use puppet_master.Base.Keys.{contains, keys, lookup, assign, emplace, ◌=ₛ◌}

module _ {ℓ} {V : Type ℓ} where
  pub lookup-assign :
      (k j : String) (v : V) (m : List (String × V)) (w : V)
      → lookup k m ≡ some w
      → lookup j (assign k v m) ≡ (if k =ₛ j then some v else lookup j m)
  unfolding lookup assign
  lookup-assign k j v [] w h = ground arith
  lookup-assign k j v ((i, u) ∷ m) w h =
      ground (arith, lookup-assign k j v m w, eq_iff i k, eq_iff i j, eq_iff k j)

  pub lookup-emplace :
      (k j : String) (v : V) (m : List (String × V))
      → lookup k m ≡ none
      → lookup j (emplace k v m) ≡ (if k =ₛ j then some v else lookup j m)
  unfolding lookup emplace
  lookup-emplace k j v [] h = refl
  lookup-emplace k j v ((i, u) ∷ m) h =
      ground (arith, lookup-emplace k j v m, eq_iff i k, eq_iff i j, eq_iff k j)

  pub keys-assign : (k : String) (v : V) (m : List (String × V)) → keys (assign k v m) ≡ keys m
  unfolding assign
  keys-assign k v [] = refl
  keys-assign k v ((i, u) ∷ m) = ground (arith, keys-assign k v m)

  pub lookup-contains :
      (k : String) (m : List (String × V)) (v : V)
      → lookup k m ≡ some v
      → contains k (keys m) ≡ true
  unfolding lookup contains
  lookup-contains k [] v h = ground arith
  lookup-contains k ((i, u) ∷ m) v h = ground (arith, lookup-contains k m v)
