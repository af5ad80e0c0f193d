-- ===== src/Common/GoMap/Range.antt =====
-- Maps with one entry for a key, and `range` loops over them.
use mathlib.Core.Path.{◌≡◌}
use mathlib.Core.Option.{none}
use mathlib.Core.List.{[], ◌∷◌}
use native.Mathlib.Omega.{arith}
use tempura.Common.Keys.{Key}
use tempura.Common.GoMap.{GoMap, get, delete, put, get-delete}

module _ {ℓ} {K V : Type ℓ} ⦃key : Key K⦄ where
  abbrev pub Unique : GoMap K V → Type ℓ
  Unique [] = Unit {ℓ}
  Unique ((k, v) ∷ m) = (get m k ≡ none) × Unique m

  pub delete-Unique : (k : K) (m : GoMap K V) → Unique m → Unique (delete k m)
  unfolding delete
  delete-Unique k [] u = tt
  delete-Unique k ((j, v) ∷ m) u = ground (arith, delete-Unique k m, get-delete k j m)

  pub put-Unique : (k : K) (v : V) (m : GoMap K V) → Unique m → Unique (put k v m)
  unfolding put
  put-Unique k v m u = (ground (arith, get-delete k k m, key.same_iff k k), delete-Unique k m u)
