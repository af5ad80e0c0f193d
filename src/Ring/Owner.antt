-- ===== src/Ring/Owner.antt =====
-- resolver.go: the owner of a hash, the first point clockwise from it, and the index of GetSlot.
use tempura.Common.{
  ℕ, ◌+◌, ◌-◌, ◌%◌, ◌^◌, ◌≤◌, ◌<◌, ◌≡◌, Bool, true, List, arith, leb, ◌==◌, length, get_or,
  contains, contains-get_or, contains→index, Bool-cases, inl, inr,
}
use tempura.Ring.Sort.{IsSorted, IsSorted-get_or}
use tempura.Ring.Search.{sort_search, Splits, sort_search-Splits}
use tempura.Ring.{slot_index}

-- how far a point lies clockwise from a hash, on a circle of 2 ^ 32 points
abbrev pub distance : ℕ → ℕ → ℕ
distance hash x = (x + 2 ^ 32 - hash) % 2 ^ 32

-- `x` is a point of the set that is nearest clockwise from `hash`
pub record IsOwner (points : ℕ → Bool) (hash x : ℕ) : Type 0 where
  pub member : points x ≡ true
  pub nearest : (y : ℕ) → points y ≡ true → distance hash x ≤ distance hash y

abbrev pub Within : (ℕ → Bool) → Type 0
Within points = (y : ℕ) → points y ≡ true → y < 2 ^ 32

-- No two points of the circle are as far from a hash, so there is one owner.
pub IsOwner-unique :
    (points : ℕ → Bool) (hash x y : ℕ)
    → Within points
    → hash < 2 ^ 32
    → IsOwner points hash x
    → IsOwner points hash y
    → x ≡ y
IsOwner-unique points hash x y bound small a b =
    omega (arith, bound x a.member, bound y b.member, a.nearest y b.member, b.nearest x a.member)

-- GetSlot's index is in range, and the point there is the owner.
module _ (ring : List ℕ) (hash : ℕ) (sorted : IsSorted ring) (full : 0 < length ring) where
  abbrev above : ℕ → Bool
  above i = leb hash (get_or ring i 0)

  above_monotone : (i j : ℕ) → i ≤ j → j < length ring → above i ≡ true → above j ≡ true
  above_monotone i j le lt h = ground (arith, IsSorted-get_or ring i j 0 sorted le lt)

  split_point : Splits above (length ring) (sort_search (length ring) above)
  split_point = sort_search-Splits above (length ring) above_monotone

  pub slot_index-lt : slot_index ring hash < length ring
  unfolding slot_index
  slot_index-lt = ground (arith, split_point.within)

  module _ (bound : Within (contains ring)) (small : hash < 2 ^ 32) where
    nearest_at :
        (k : ℕ)
        → k < length ring
        → distance hash (get_or ring (slot_index ring hash) 0) ≤ distance hash (get_or ring k 0)
    unfolding slot_index
    nearest_at k lt =
        let p = sort_search (length ring) above in
        elim (Bool-cases (p == length ring)) [
          | inl none_above ↦ rw none_above (
              ground (
                arith,
                split_point.before k,
                split_point.before 0,
                IsSorted-get_or ring 0 k 0 sorted,
                bound (get_or ring k 0) (contains-get_or ring k 0 lt),
                bound (get_or ring 0 0) (contains-get_or ring 0 0 full),
              ))
          | inr found ↦
              let in_range : p < length ring = ground (arith, split_point.within) in
              let hit = split_point.at in_range in
              let top = bound (get_or ring p 0) (contains-get_or ring p 0 in_range) in
              rw found (
                ground (
                  arith,
                  hit,
                  top,
                  split_point.before k,
                  IsSorted-get_or ring p k 0 sorted,
                  bound (get_or ring k 0) (contains-get_or ring k 0 lt),
                ))
        ]

    pub slot_index-IsOwner : IsOwner (contains ring) hash (get_or ring (slot_index ring hash) 0)
    slot_index-IsOwner = record {
      member = contains-get_or ring (slot_index ring hash) 0 slot_index-lt;
      nearest = λ y here.
          let (k, lt, at) = contains→index ring y 0 here in
          let near = nearest_at k lt in rw at at near;
    }
