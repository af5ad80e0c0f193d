-- ===== src/Ring/Invariant.antt =====
-- resolver.go: the invariant that ties the sorted slice of hashes to the map from hashes to slots.
use tempura.Common.{
  ℕ, zero, suc, ◌+◌, ◌^◌, ◌≤◌, ◌<◌, ◌≡◌, refl, true, some, arith, length, Text, contains, ltb,
}
use tempura.Common.GoMap
use tempura.Common.GoMap.{GoMap, is_some}
use tempura.Common.Keys.{uint32_key}
use tempura.Common.Run.{state, panics}
use tempura.Ring.Sort.{IsSorted}
use tempura.Ring.Hash.{Murmur3}
use tempura.Ring.Owner.{Within}
use tempura.Ring.View.{
  vnode_hashes, is_vnode, contains-add_slot, get-add_slot, virtual_nodes-add_slot,
  add_slot-IsSorted, get-remove_slot, contains-remove_slot, virtual_nodes-remove_slot,
  remove_slot-IsSorted,
}
use tempura.Ring.{ConsistentHash, new_consistent_hash, vnode_hash, add_slot, remove_slot}

module _ ⦃murmur3 : Murmur3⦄ where
  -- `mapped`: the slice and the map hold the same hashes; `own`: a hash belongs to a slot only if
  -- it is the hash of one of the slot's virtual nodes
  pub record IsConsistent (ch : ConsistentHash) : Type 0 where
    pub sorted : IsSorted ch.ring
    pub bound : Within (contains ch.ring)
    pub mapped : (x : ℕ) → contains ch.ring x ≡ is_some (GoMap.get ch.vnode_to_slot x)
    pub own :
        (x : ℕ) (slot : Text)
        → GoMap.get ch.vnode_to_slot x ≡ some slot
        → is_vnode slot ch.virtual_nodes x ≡ true

  vnode_hash-lt : (slot : Text) (i : ℕ) → vnode_hash slot i < 2 ^ 32
  unfolding vnode_hash
  vnode_hash-lt slot i = murmur3.sum32_lt _

  vnode_hashes-Within : (slot : Text) (left i : ℕ) → Within (contains (vnode_hashes slot left i))
  unfolding vnode_hashes contains
  vnode_hashes-Within slot zero i y h = cc
  vnode_hashes-Within slot (suc left) i y h =
      ground (arith, vnode_hashes-Within slot left (i + 1) y, vnode_hash-lt slot i)

  pub is_vnode-lt : (slot : Text) (n x : ℕ) → is_vnode slot n x ≡ true → x < 2 ^ 32
  unfolding is_vnode
  is_vnode-lt slot n x = vnode_hashes-Within slot n 0 x

  pub new_consistent_hash-IsConsistent : (n : ℕ) → IsConsistent (new_consistent_hash n)
  unfolding new_consistent_hash contains GoMap.get
  new_consistent_hash-IsConsistent n = record {
    sorted = tt;
    bound = λ y h. absurd (cc);
    mapped = λ x. refl;
    own = λ x slot h. cc;
  }

  -- AddSlot keeps a ring consistent: sorted, of 32-bit hashes, in agreement with the map, and each
  -- hash a virtual node of its slot.
  pub add_slot-IsConsistent :
      (slot : Text) (ch : ConsistentHash) → IsConsistent ch → IsConsistent (add_slot slot ch)
  add_slot-IsConsistent slot ch c = record {
    sorted = add_slot-IsSorted slot ch;
    bound = λ y h.
        ground (arith, contains-add_slot slot ch y, c.bound y, is_vnode-lt slot ch.virtual_nodes y);
    mapped = λ x. ground (arith, contains-add_slot slot ch x, get-add_slot slot ch x, c.mapped x);
    own = λ x t h. rw virtual_nodes-add_slot (ground (arith, get-add_slot slot ch x, c.own x t));
  }

  -- RemoveSlot panics exactly when the ring is shorter than the number of virtual nodes.
  pub remove_slot-panics :
      (slot : Text) (ch : ConsistentHash)
      → panics (remove_slot slot ch) ≡ ltb (length ch.ring) ch.virtual_nodes
  unfolding remove_slot
  remove_slot-panics slot ch = ground arith

  -- RemoveSlot keeps a ring consistent if the ring has at least one set of virtual nodes.
  pub remove_slot-IsConsistent :
      (slot : Text) (ch : ConsistentHash)
      → ch.virtual_nodes ≤ length ch.ring
      → IsConsistent ch
      → IsConsistent (state (remove_slot slot ch))
  remove_slot-IsConsistent slot ch room c = record {
    sorted = remove_slot-IsSorted slot ch c.sorted;
    bound = λ y h. ground (arith, contains-remove_slot slot ch y room, c.bound y);
    mapped = λ x.
        ground (arith, contains-remove_slot slot ch x room, get-remove_slot slot ch x, c.mapped x);
    own = λ x t h.
        rw virtual_nodes-remove_slot (ground (arith, get-remove_slot slot ch x, c.own x t));
  }
