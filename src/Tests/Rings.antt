-- ===== src/Tests/Rings.antt =====
-- The ring and the virtual namespaces at concrete inputs.
use mathlib.Core.Path.{fun_ext}
use tempura.Common.{
  ℕ, ◌+◌, ◌*◌, ◌≤◌, ◌<◌, ◌≡◌, ◌≢◌, refl, Bool, true, false, Option, none, some, List, [], ◌∷◌, ◌++◌,
  arith, length, Text, codes, contains, ◌⊎◌, ltb, leb, Bool-cases,
}
use tempura.Common.GoMap
use tempura.Common.GoMap.{is_some}
use tempura.Common.Keys.{string_key, uint32_key, text_eq, text_eq_iff}
use tempura.Ring.Sort.{sort_slice}
use tempura.Ring.Hash.{itoa}
use tempura.Common.Run.{state}
use tempura.Ring.{
  ConsistentHash, new_consistent_hash, add_slot, remove_slot, get_slot, hash32, slot_index,
  vnode_hash,
}
use tempura.Ring.Search.{sort_search}
use tempura.Ring.Owner.{IsOwner}
use tempura.Ring.Lookup.{get_slot-IsOwner}
use tempura.Ring.Invariant.{
  remove_slot-panics, IsConsistent, new_consistent_hash-IsConsistent, add_slot-IsConsistent,
}
use tempura.Ring.Disruption.{get_slot-add_slot, get_slot-remove_slot, get_slot-remove_slot-add_slot}
use tempura.Ring.Refinement.{Op, NoPanic, Answers, replay, run-Answers, get_slot-replay}
use tempura.Ring.Refinement
use tempura.Ring.View.{length-add_slot, virtual_nodes-add_slot, is_vnode, vnode_hashes}
use tempura.Tests.Base.{polynomial, hash31}

abbrev east : Text
east = codes "east::10.0.0.1:7233"

abbrev west : Text
west = codes "west::10.0.0.2:7233"

abbrev order : Text
order = codes "order-17"

abbrev empty_ring : ConsistentHash
empty_ring = new_consistent_hash 2

abbrev one_slot : ConsistentHash
one_slot = add_slot east empty_ring

empty_ring-IsConsistent : IsConsistent empty_ring
empty_ring-IsConsistent = new_consistent_hash-IsConsistent 2

one_slot-IsConsistent : IsConsistent one_slot
one_slot-IsConsistent = add_slot-IsConsistent east empty_ring empty_ring-IsConsistent

one_slot-full : 2 ≤ length one_slot.ring
unfolding new_consistent_hash
one_slot-full = omega (arith, length-add_slot east empty_ring)

get_slot-IsOwner_example :
    (x : ℕ) × IsOwner (contains one_slot.ring) (hash32 order) x
    × (GoMap.get one_slot.vnode_to_slot x ≡ some (get_slot one_slot order))
get_slot-IsOwner_example =
    get_slot-IsOwner one_slot order one_slot-IsConsistent (omega (arith, one_slot-full))

abbrev two_slots : ConsistentHash
two_slots = add_slot west one_slot

two_slots-IsConsistent : IsConsistent two_slots
two_slots-IsConsistent = add_slot-IsConsistent west one_slot one_slot-IsConsistent

two_slots-full : 4 ≤ length two_slots.ring
unfolding new_consistent_hash
two_slots-full =
    omega
      (arith, length-add_slot west one_slot, virtual_nodes-add_slot east empty_ring, one_slot-full)

two_slots_nodes : two_slots.virtual_nodes ≡ 2
unfolding new_consistent_hash
two_slots_nodes =
    omega (arith, virtual_nodes-add_slot west one_slot, virtual_nodes-add_slot east empty_ring)

order_at : get_slot two_slots order ≡ west
unfolding add_slot get_slot hash31 hash32 new_consistent_hash GoMap.put GoMap.get slot_index
    sort_search sort_slice vnode_hash itoa tempura.Common.get_or
order_at = refl

text_ne : (a b : Text) → text_eq a b ≡ false → a ≢ b
text_ne a b h e = cc (h, (text_eq_iff a b).1 e)

west≢east : west ≢ east
unfolding text_eq
west≢east = text_ne west east refl

order_not_east : get_slot two_slots order ≢ east
order_not_east = rw order_at west≢east

east_apart :
    (x : ℕ) (t : Text)
    → GoMap.get two_slots.vnode_to_slot x ≡ some t
    → t ≢ east
    → is_vnode east two_slots.virtual_nodes x ≡ false
unfolding is_vnode vnode_hashes add_slot hash31 hash32 new_consistent_hash GoMap.put GoMap.get
    sort_slice vnode_hash itoa contains
east_apart x t h ne = ground (arith, h, ne)

west_apart :
    (x : ℕ) → is_vnode west one_slot.virtual_nodes x ≡ true → contains one_slot.ring x ≡ false
unfolding is_vnode vnode_hashes add_slot hash31 hash32 new_consistent_hash GoMap.put GoMap.get
    sort_slice vnode_hash itoa contains
west_apart x h = ground (arith, h)

get_slot-add_slot_example :
    (get_slot two_slots order ≡ west) ⊎ (get_slot two_slots order ≡ get_slot one_slot order)
get_slot-add_slot_example = get_slot-add_slot west one_slot order one_slot-IsConsistent

get_slot-remove_slot_example :
    get_slot (state (remove_slot east two_slots)) order ≡ get_slot two_slots order
get_slot-remove_slot_example =
    get_slot-remove_slot east two_slots order two_slots-IsConsistent
      (rw two_slots_nodes (omega (arith, two_slots-full))) east_apart order_not_east

get_slot-remove_slot-add_slot_example :
    get_slot (state (remove_slot west (add_slot west one_slot))) order ≡ get_slot one_slot order
get_slot-remove_slot-add_slot_example =
    get_slot-remove_slot-add_slot west one_slot order one_slot-IsConsistent west_apart

unfoldable third : ℕ → Bool
third i = leb 30 (10 * i + 10)

-- east and west join, and east leaves
abbrev joins : List Op
joins = Op.add east ∷ Op.add west ∷ Op.remove east ∷ []

joins-NoPanic : NoPanic joins empty_ring
unfolding new_consistent_hash
joins-NoPanic = (
  ground (
    arith,
    remove_slot-panics east (add_slot west one_slot),
    length-add_slot west one_slot,
    length-add_slot east empty_ring,
    virtual_nodes-add_slot west one_slot,
    virtual_nodes-add_slot east empty_ring,
  ),
  tt,
)

run-Answers_example :
    Answers (replay 2 joins (λ x. none)) order (get_slot (Refinement.run joins empty_ring) order)
run-Answers_example = run-Answers 2 joins order joins-NoPanic

-- a slot that is added twice
abbrev once : List Op
once = Op.add east ∷ []

abbrev twice : List Op
twice = Op.add east ∷ Op.add east ∷ []

once-twice : replay 2 twice (λ x. none) ≡ replay 2 once (λ x. none)
unfolding replay
once-twice = fun_ext λ x. ground arith
