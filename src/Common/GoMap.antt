-- ===== src/Common/GoMap.antt =====
-- Go's built-in map: an association list. The order of the entries stands for the order of a
-- `range` loop, which Go leaves open.
pub mod Range
use mathlib.Core.Path.{◌≡◌}
use mathlib.Core.Bool.{Bool, true, false}
use mathlib.Core.Option.{Option, none, some}
use mathlib.Core.List.{List, [], ◌∷◌}
use native.Mathlib.Omega.{arith}
use tempura.Common.Numbers.{if◌then◌else◌}
use tempura.Common.Keys.{Key}

abbrev pub GoMap {ℓ} : Type ℓ → Type ℓ → Type ℓ
GoMap K V = List (K × V)

abbrev pub is_some {ℓ} : {A : Type ℓ} → Option A → Bool
is_some none = false
is_some (some a) = true

module _ {ℓ} {K V : Type ℓ} ⦃key : Key K⦄ where
  -- `v, ok := m[k]`
  unfoldable pub get : GoMap K V → K → Option V
  get [] k = none
  get ((j, v) ∷ m) k = if key.same j k then some v else get m k

  -- `delete(m, k)`
  unfoldable pub delete : K → GoMap K V → GoMap K V
  delete k [] = []
  delete k ((j, v) ∷ m) = let rest = delete k m in if key.same j k then rest else (j, v) ∷ rest

  -- `m[k] = v`
  unfoldable pub put : K → V → GoMap K V → GoMap K V
  unfolding delete
  put k v m = (k, v) ∷ delete k m

  pub get-delete :
      (k j : K) (m : GoMap K V) → get (delete k m) j ≡ (if key.same k j then none else get m j)
  unfolding get delete
  get-delete k j [] = ground arith
  get-delete k j ((i, v) ∷ m) =
      ground (arith, get-delete k j m, key.same_iff i k, key.same_iff i j, key.same_iff k j)

  pub get-put :
      (k j : K) (v : V) (m : GoMap K V)
      → get (put k v m) j ≡ (if key.same k j then some v else get m j)
  unfolding get put
  get-put k j v m = ground (arith, get-delete k j m)
