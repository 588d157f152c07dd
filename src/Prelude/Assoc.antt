-- ===== src/Prelude/Assoc.antt =====
-- JavaScript objects and Maps as association lists in insertion order.
use mathlib.Core.Path.{◌≡◌, refl}
use mathlib.Core.Bool.{true}
use mathlib.Core.Option.{Option, none, some}
use mathlib.Core.List.{List, [], ◌∷◌}
use native.Mathlib.Omega.{arith}
use hyperwake_core.Prelude.Tests.{Eq, ◌==◌, if◌then◌else◌}

module _ {ℓ} {K V : Type ℓ} ⦃e : Eq K⦄ where
  -- m[k], m.get(k)
  unfoldable pub lookup : K → List (K × V) → Option V
  lookup k [] = none
  lookup k ((j, v) ∷ m) = if j == k then some v else lookup k m

  -- delete m[k], m.delete(k)
  unfoldable pub remove : K → List (K × V) → List (K × V)
  remove k [] = []
  remove k ((j, v) ∷ m) = let rest = remove k m in if j == k then rest else (j, v) ∷ rest

  -- m[k] = v, m.set(k, v): an existing key keeps its place
  unfoldable pub insert : K → V → List (K × V) → List (K × V)
  insert k v [] = (k, v) ∷ []
  insert k v ((j, old) ∷ rest) = if j == k then (k, v) ∷ rest else (j, old) ∷ insert k v rest

  pub lookup-insert :
      (k j : K) (v : V) (m : List (K × V))
      → lookup j (insert k v m) ≡ (if k == j then some v else lookup j m)
  unfolding lookup insert
  lookup-insert k j v ((i, old) ∷ rest) =
      ground (arith, lookup-insert k j v rest, e.beq_iff i j, e.beq_iff i k, e.beq_iff k j)
  lookup-insert k j v [] = refl

  pub lookup-remove :
      (k j : K) (m : List (K × V)) → lookup j (remove k m) ≡ (if k == j then none else lookup j m)
  unfolding lookup remove
  lookup-remove k j [] = ground arith
  lookup-remove k j ((i, w) ∷ m) =
      ground (arith, e.beq_iff k j, e.beq_iff i k, e.beq_iff i j, lookup-remove k j m)

module _ {ℓ} {K : Type ℓ} ⦃e : Eq K⦄ where
  pub beq_self : (k : K) → (k == k) ≡ true
  beq_self k = (e.beq_iff k k).1 refl

module _ {ℓ} {K V : Type ℓ} ⦃e : Eq K⦄ where
  pub lookup-insert_self : (k : K) (v : V) (m : List (K × V)) → lookup k (insert k v m) ≡ some v
  lookup-insert_self k v m = simp (lookup-insert, beq_self)
