-- ===== src/Ring/View.antt =====
-- What AddSlot and RemoveSlot do to the two views of the ring: which hashes it holds, and which
-- slot each hash belongs to.
use tempura.Common.{
  ℕ, zero, suc, ◌+◌, ◌≤◌, ◌≡◌, refl, Bool, true, not, ◌&&◌, ◌||◌, none, some, List, [], ◌∷◌, ◌++◌,
  arith, ltb, if◌then◌else◌, length, Text, contains, contains-append, length-append, Bool-cases,
  inl, inr,
}
use tempura.Common.Keys.{uint32_key}
use tempura.Common.GoMap
use tempura.Common.GoMap.{GoMap}
use tempura.Common.Run.{state}
use tempura.Ring.Sort.{
  contains-sort_slice, sort_slice-IsSorted, length-sort_slice, contains-keep, IsSorted,
  IsSorted-keep,
}
use tempura.Ring.Hash.{Murmur3}
use tempura.Ring.{
  ConsistentHash, vnode_hash, add_vnodes, add_slot, forget_vnodes, marked, remove_slot,
}

module _ ⦃murmur3 : Murmur3⦄ where
  -- the hashes of the `left` virtual nodes of a slot from number `i` on
  unfoldable pub vnode_hashes : Text → ℕ → ℕ → List ℕ
  vnode_hashes slot zero i = []
  vnode_hashes slot (suc left) i = vnode_hash slot i ∷ vnode_hashes slot left (i + 1)

  -- whether a hash is one of the slot's, in a ring with `n` virtual nodes a slot
  unfoldable pub is_vnode : Text → ℕ → ℕ → Bool
  is_vnode slot n x = contains (vnode_hashes slot n 0) x

  contains-add_vnodes :
      (left i : ℕ) (slot : Text) (ch : ConsistentHash) (x : ℕ)
      → contains (add_vnodes left i slot ch).ring x
        ≡ (contains ch.ring x || contains (vnode_hashes slot left i) x)
  unfolding add_vnodes vnode_hashes contains
  contains-add_vnodes zero i slot ch x = ground arith
  contains-add_vnodes (suc left) i slot ch x =
      let hash = vnode_hash slot i in
      ground (
        arith,
        contains-append ch.ring (hash ∷ []) x,
        contains-add_vnodes left (i + 1) slot
            (record ch {
              ring = ch.ring ++ (hash ∷ []);
              vnode_to_slot = GoMap.put hash slot ch.vnode_to_slot;
            })
            x,
      )

  get-add_vnodes :
      (left i : ℕ) (slot : Text) (ch : ConsistentHash) (x : ℕ)
      → GoMap.get (add_vnodes left i slot ch).vnode_to_slot x ≡ (
          if contains (vnode_hashes slot left i) x then some slot else GoMap.get ch.vnode_to_slot x)
  unfolding add_vnodes vnode_hashes contains
  get-add_vnodes zero i slot ch x = refl
  get-add_vnodes (suc left) i slot ch x =
      let hash = vnode_hash slot i in
      ground (
        arith,
        GoMap.get-put hash x slot ch.vnode_to_slot,
        get-add_vnodes left (i + 1) slot
            (record ch {
              ring = ch.ring ++ (hash ∷ []);
              vnode_to_slot = GoMap.put hash slot ch.vnode_to_slot;
            })
            x,
      )

  virtual_nodes-add_vnodes :
      (left i : ℕ) (slot : Text) (ch : ConsistentHash)
      → (add_vnodes left i slot ch).virtual_nodes ≡ ch.virtual_nodes
  unfolding add_vnodes
  virtual_nodes-add_vnodes zero i slot ch = refl
  virtual_nodes-add_vnodes (suc left) i slot ch = virtual_nodes-add_vnodes left (i + 1) slot _

  length-add_vnodes :
      (left i : ℕ) (slot : Text) (ch : ConsistentHash)
      → length (add_vnodes left i slot ch).ring ≡ length ch.ring + left
  unfolding add_vnodes
  length-add_vnodes zero i slot ch = omega arith
  length-add_vnodes (suc left) i slot ch = omega (
    arith,
    length-add_vnodes left (i + 1) slot _,
    length-append {0} ch.ring (vnode_hash slot i ∷ []),
  )

  pub contains-add_slot :
      (slot : Text) (ch : ConsistentHash) (x : ℕ)
      → contains (add_slot slot ch).ring x
        ≡ (contains ch.ring x || is_vnode slot ch.virtual_nodes x)
  unfolding add_slot is_vnode
  contains-add_slot slot ch x =
      rw contains-sort_slice (contains-add_vnodes ch.virtual_nodes 0 slot ch x)

  pub get-add_slot :
      (slot : Text) (ch : ConsistentHash) (x : ℕ)
      → GoMap.get (add_slot slot ch).vnode_to_slot x
        ≡ (if is_vnode slot ch.virtual_nodes x then some slot else GoMap.get ch.vnode_to_slot x)
  unfolding add_slot is_vnode
  get-add_slot slot ch x = get-add_vnodes ch.virtual_nodes 0 slot ch x

  pub virtual_nodes-add_slot :
      (slot : Text) (ch : ConsistentHash) → (add_slot slot ch).virtual_nodes ≡ ch.virtual_nodes
  unfolding add_slot
  virtual_nodes-add_slot slot ch = virtual_nodes-add_vnodes ch.virtual_nodes 0 slot ch

  pub length-add_slot :
      (slot : Text) (ch : ConsistentHash)
      → length (add_slot slot ch).ring ≡ length ch.ring + ch.virtual_nodes
  unfolding add_slot
  length-add_slot slot ch = rw length-sort_slice (length-add_vnodes ch.virtual_nodes 0 slot ch)

  pub add_slot-IsSorted : (slot : Text) (ch : ConsistentHash) → IsSorted (add_slot slot ch).ring
  unfolding add_slot
  add_slot-IsSorted slot ch = sort_slice-IsSorted _

  marked-forget_vnodes :
      (left i : ℕ) (slot : Text) (to_remove : GoMap ℕ Bool) (m : GoMap ℕ Text) (x : ℕ)
      → marked (forget_vnodes left i slot (to_remove, m)).0 x
        ≡ (contains (vnode_hashes slot left i) x || marked to_remove x)
  unfolding forget_vnodes vnode_hashes contains marked
  marked-forget_vnodes zero i slot to_remove m x = refl
  marked-forget_vnodes (suc left) i slot to_remove m x =
      let hash = vnode_hash slot i in
      ground (
        arith,
        GoMap.get-put hash x true to_remove,
        marked-forget_vnodes left (i + 1) slot (GoMap.put hash true to_remove) (GoMap.delete hash m)
            x,
      )

  get-forget_vnodes :
      (left i : ℕ) (slot : Text) (to_remove : GoMap ℕ Bool) (m : GoMap ℕ Text) (x : ℕ)
      → GoMap.get (forget_vnodes left i slot (to_remove, m)).1 x
        ≡ (if contains (vnode_hashes slot left i) x then none else GoMap.get m x)
  unfolding forget_vnodes vnode_hashes contains
  get-forget_vnodes zero i slot to_remove m x = refl
  get-forget_vnodes (suc left) i slot to_remove m x =
      let hash = vnode_hash slot i in
      ground (
        arith,
        GoMap.get-delete hash x m,
        get-forget_vnodes left (i + 1) slot (GoMap.put hash true to_remove) (GoMap.delete hash m) x,
      )

  -- The map is cleaned whether or not the call panics.
  pub get-remove_slot :
      (slot : Text) (ch : ConsistentHash) (x : ℕ)
      → GoMap.get (state (remove_slot slot ch)).vnode_to_slot x
        ≡ (if is_vnode slot ch.virtual_nodes x then none else GoMap.get ch.vnode_to_slot x)
  unfolding remove_slot is_vnode
  get-remove_slot slot ch x =
      ground (arith, get-forget_vnodes ch.virtual_nodes 0 slot [] ch.vnode_to_slot x)

  pub contains-remove_slot :
      (slot : Text) (ch : ConsistentHash) (x : ℕ)
      → ch.virtual_nodes ≤ length ch.ring
      → contains (state (remove_slot slot ch)).ring x
        ≡ (contains ch.ring x && not (is_vnode slot ch.virtual_nodes x))
  unfolding remove_slot is_vnode marked GoMap.get
  contains-remove_slot slot ch x room =
      let to_remove = (forget_vnodes ch.virtual_nodes 0 slot ([], ch.vnode_to_slot)).0 in
      ground (
        arith,
        contains-keep (λ (hash : ℕ). not (marked to_remove hash)) ch.ring x,
        marked-forget_vnodes ch.virtual_nodes 0 slot [] ch.vnode_to_slot x,
      )

  pub virtual_nodes-remove_slot :
      (slot : Text) (ch : ConsistentHash)
      → (state (remove_slot slot ch)).virtual_nodes ≡ ch.virtual_nodes
  unfolding remove_slot
  virtual_nodes-remove_slot slot ch = ground arith

  pub remove_slot-IsSorted :
      (slot : Text) (ch : ConsistentHash)
      → IsSorted ch.ring
      → IsSorted (state (remove_slot slot ch)).ring
  unfolding remove_slot
  remove_slot-IsSorted slot ch s = elim (Bool-cases (ltb (length ch.ring) ch.virtual_nodes)) [
    | inl short ↦ rw short s
    | inr room ↦ rw room (IsSorted-keep _ ch.ring s)
  ]
