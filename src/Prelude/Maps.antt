-- ===== src/Prelude/Maps.antt =====
-- A JavaScript `Map` with text keys: its entries in insertion order. `set` on a key that is present
-- keeps the entry's place.
use Prim.Native.Nat.{◌+◌, ◌≤◌}
use Prim.Native.String.{String}
use mathlib.Core.Path.{◌≡◌, refl}
use mathlib.Core.Bool.{Bool}
use mathlib.Core.Option.{Option, none, some}
use mathlib.Core.List.{List, [], ◌∷◌}
use native.Mathlib.Omega.{arith}
use text.Mathlib.TextEquality.{eq_iff}
use adrouter_agent.Prelude.Tests.{str_eq, if◌then◌else◌, is_some}
use adrouter_agent.Prelude.Lists.{length}

module _ {ℓ} {V : Type ℓ} where
  unfoldable pub map_get : String → List (String × V) → Option V
  map_get k [] = none
  map_get k ((j, v) ∷ m) = if str_eq j k then some v else map_get k m

  unfoldable pub map_set : String → V → List (String × V) → List (String × V)
  map_set k v [] = (k, v) ∷ []
  map_set k v ((j, w) ∷ m) = if str_eq j k then (j, v) ∷ m else (j, w) ∷ map_set k v m

  unfoldable pub map_delete : String → List (String × V) → List (String × V)
  map_delete k [] = []
  map_delete k ((j, w) ∷ m) = if str_eq j k then map_delete k m else (j, w) ∷ map_delete k m

  abbrev pub map_has : String → List (String × V) → Bool
  map_has k m = is_some (map_get k m)

  pub map_get-set :
      (k j : String) (v : V) (m : List (String × V))
      → map_get j (map_set k v m) ≡ (if str_eq k j then some v else map_get j m)
  unfolding map_get map_set
  map_get-set k j v [] = refl
  map_get-set k j v ((i, w) ∷ m) =
      ground (arith, eq_iff k j, eq_iff i k, eq_iff i j, map_get-set k j v m)

  pub map_get-delete :
      (k j : String) (m : List (String × V))
      → map_get j (map_delete k m) ≡ (if str_eq k j then none else map_get j m)
  unfolding map_get map_delete
  map_get-delete k j [] = ground arith
  map_get-delete k j ((i, w) ∷ m) =
      ground (arith, eq_iff k j, eq_iff i k, eq_iff i j, map_get-delete k j m)

  pub length-map_set_le :
      (k : String) (v : V) (m : List (String × V)) → length (map_set k v m) ≤ length m + 1
  unfolding map_set
  length-map_set_le k v [] = omega arith
  length-map_set_le k v ((j, w) ∷ m) = ground (arith, length-map_set_le k v m)

  pub length-map_delete_le :
      (k : String) (m : List (String × V)) → length (map_delete k m) ≤ length m
  unfolding map_delete
  length-map_delete_le k [] = omega arith
  length-map_delete_le k ((j, w) ∷ m) = ground (arith, length-map_delete_le k m)
