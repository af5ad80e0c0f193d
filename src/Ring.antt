-- ===== src/Ring.antt =====
-- resolver.go, the type ConsistentHash: a ring of hashed virtual nodes that allocates keys to
-- slots (physical namespaces). Each method holds the mutex for its whole body, so it is one step.
pub mod Sort
pub mod Search
pub mod Hash
pub mod View
pub mod Owner
pub mod Invariant
pub mod Lookup
pub mod Disruption
pub mod Refinement
use tempura.Common.{
  ℕ, zero, suc, ◌+◌, ◌<◌, Bool, true, false, not, Option, none, some, List, [], ◌∷◌, ◌++◌, ltb, leb,
  ◌==◌, if◌then◌else◌, length, get_or, Text, codes, contains,
}
use tempura.Common.Keys.{string_key, uint32_key}
use tempura.Common.GoMap
use tempura.Common.GoMap.{GoMap}
use tempura.Common.Run.{Run, returned, panicked}
use Sort.{sort_slice, keep}
use Search.{sort_search}
use Hash.{Murmur3, itoa}

pub record ConsistentHash : Type 0 where
  pub virtual_nodes : ℕ
  pub ring : List ℕ
  pub vnode_to_slot : GoMap ℕ Text

unfoldable pub new_consistent_hash : ℕ → ConsistentHash
new_consistent_hash virtual_nodes = record {
  virtual_nodes = virtual_nodes;
  ring = [];
  vnode_to_slot = [];
}

-- `m[k]`: the zero value where the key is missing
unfoldable pub slot_at : GoMap ℕ Text → ℕ → Text
slot_at m h = elim (GoMap.get m h) [ none ↦ [] | some slot ↦ slot ]

unfoldable pub marked : GoMap ℕ Bool → ℕ → Bool
marked m h = elim (GoMap.get m h) [ none ↦ false | some b ↦ b ]

-- the index that GetSlot reads, for a key with the hash `hash`
unfoldable pub slot_index : List ℕ → ℕ → ℕ
slot_index ring hash =
    let idx = sort_search (length ring) (λ i. leb hash (get_or ring i 0)) in
    if idx == length ring then 0 else idx

module _ ⦃murmur3 : Murmur3⦄ where
  unfoldable pub hash32 : Text → ℕ
  hash32 key = murmur3.sum32 key

  -- the hash of `slot + "#" + strconv.Itoa(i)`
  unfoldable pub vnode_hash : Text → ℕ → ℕ
  unfolding hash32
  vnode_hash slot i = hash32 (slot ++ (codes "#" ++ itoa i))

  -- `left` rounds of the loop of AddSlot, the next of them for the virtual node `i`
  unfoldable pub add_vnodes : ℕ → ℕ → Text → ConsistentHash → ConsistentHash
  add_vnodes zero i slot ch = ch
  add_vnodes (suc left) i slot ch =
      let hash = vnode_hash slot i in
      add_vnodes left (i + 1) slot (record ch {
        ring = ch.ring ++ (hash ∷ []);
        vnode_to_slot = GoMap.put hash slot ch.vnode_to_slot;
      })

  unfoldable pub add_slot : Text → ConsistentHash → ConsistentHash
  unfolding add_vnodes
  add_slot slot ch =
      let added = add_vnodes ch.virtual_nodes 0 slot ch in
      record added { ring = sort_slice added.ring }

  unfoldable pub get_slot : ConsistentHash → Text → Text
  unfolding slot_index slot_at hash32
  get_slot ch key =
      if length ch.ring == 0
      then []
      else slot_at ch.vnode_to_slot (get_or ch.ring (slot_index ch.ring (hash32 key)) 0)

  -- the loop of RemoveSlot, which collects the hashes and cleans the map
  unfoldable pub forget_vnodes :
      ℕ → ℕ → Text → GoMap ℕ Bool × GoMap ℕ Text → GoMap ℕ Bool × GoMap ℕ Text
  forget_vnodes zero i slot s = s
  forget_vnodes (suc left) i slot (to_remove, m) =
      let hash = vnode_hash slot i in
      forget_vnodes left (i + 1) slot (GoMap.put hash true to_remove, GoMap.delete hash m)

  -- `make([]uint32, 0, len(ch.ring)-ch.virtualNodes)` panics on a negative capacity; by then the
  -- map is cleaned and the ring is not.
  unfoldable pub remove_slot : Text → ConsistentHash → Run ConsistentHash
  unfolding forget_vnodes marked
  remove_slot slot ch =
      let (to_remove, m) = forget_vnodes ch.virtual_nodes 0 slot ([], ch.vnode_to_slot) in
      if ltb (length ch.ring) ch.virtual_nodes
      then panicked (record ch { vnode_to_slot = m })
      else returned (record ch {
        ring = keep (λ hash. not (marked to_remove hash)) ch.ring;
        vnode_to_slot = m;
      })

-- the loop of GetAllSlots, over the entries of the map in the order of the `range`
unfoldable pub collect_slots : List (ℕ × Text) → GoMap Text Bool → List Text → List Text
collect_slots [] unique slots = slots
collect_slots ((hash, slot) ∷ entries) unique slots = elim (GoMap.is_some (GoMap.get unique slot)) [
  | true ↦ collect_slots entries unique slots
  | false ↦ collect_slots entries (GoMap.put slot true unique) (slots ++ (slot ∷ []))
]

unfoldable pub get_all_slots : ConsistentHash → List Text
unfolding collect_slots
get_all_slots ch = collect_slots ch.vnode_to_slot [] []
