-- ===== src/Common/Maps.antt =====
-- Go maps as association lists. A `range` over a map goes through the list in its order; a theorem
-- that speaks of such a loop is about every list, and so about every order of iteration.
use Prim.Native.String.{String}
use mathlib.Core.Path.{◌≡◌, refl}
use mathlib.Core.Option.{Option, none, some}
use mathlib.Core.List.{List, [], ◌∷◌}
use native.Mathlib.Omega.{arith}
use text.Mathlib.TextEquality.{eq_iff}
use fdb_kubernetes_operator.Common.Tests.{if◌then◌else◌, ◌==◌, string_eq}

module _ {ℓ} {V : Type ℓ} where
  abbrev pub lookup : String → List (String × V) → Option V
  lookup k [] = none
  lookup k ((l, w) ∷ rest) = if l == k then some w else lookup k rest

  -- `m[k] = v`
  unfoldable pub insert : String → V → List (String × V) → List (String × V)
  insert k v [] = (k, v) ∷ []
  insert k v ((l, w) ∷ rest) = if l == k then (k, v) ∷ rest else (l, w) ∷ insert k v rest

  -- `delete(m, k)`
  unfoldable pub delete : String → List (String × V) → List (String × V)
  delete k [] = []
  delete k ((j, w) ∷ m) = if j == k then delete k m else (j, w) ∷ delete k m

  pub lookup-insert :
      (k l : String) (v : V) (pairs : List (String × V))
      → lookup l (insert k v pairs) ≡ (if k == l then some v else lookup l pairs)
  unfolding insert
  lookup-insert k l v [] = refl
  lookup-insert k l v ((i, w) ∷ rest) =
      ground (arith, lookup-insert k l v rest, eq_iff i k, eq_iff k l, eq_iff i l)

  pub lookup-delete :
      (k j : String) (m : List (String × V))
      → lookup j (delete k m) ≡ (if k == j then none else lookup j m)
  unfolding delete
  lookup-delete k j [] = ground (arith, eq_iff k j)
  lookup-delete k j ((i, w) ∷ m) =
      ground (arith, eq_iff k j, eq_iff i k, eq_iff i j, lookup-delete k j m)
