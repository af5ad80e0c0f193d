-- ===== src/Ring/Disruption.antt =====
-- resolver.go: what AddSlot and RemoveSlot do to the slots of the keys.
use tempura.Common.{
  ℕ, ◌≤◌, ◌≡◌, ◌≢◌, sym, ◌∙◌, Bool, true, false, some, [], arith, length, Text, contains, ◌⊎◌, inl,
  inr, Bool-cases, ◌==◌,
}
use tempura.Common.GoMap
use tempura.Common.GoMap.{GoMap, is_some}
use tempura.Common.Keys.{uint32_key}
use tempura.Common.Run.{state}
use tempura.Ring.Hash.{Murmur3}
use tempura.Ring.Owner.{IsOwner}
use tempura.Ring.View.{
  is_vnode, contains-add_slot, get-add_slot, virtual_nodes-add_slot, length-add_slot,
  get-remove_slot, contains-remove_slot,
}
use tempura.Ring.Invariant.{IsConsistent, add_slot-IsConsistent, remove_slot-IsConsistent}
use tempura.Ring.Lookup.{
  get_slot_empty, get_slot-IsOwner, get_slot_at, get_slot_congr, contains→full, get_slot→get,
  empty_congr, contains_empty,
}
use tempura.Ring.{ConsistentHash, hash32, add_slot, remove_slot, get_slot}

module _ ⦃murmur3 : Murmur3⦄ where
  -- a smaller set that still holds the owner has the same owner
  IsOwner-shrink :
      (big small : ℕ → Bool) (hash x : ℕ)
      → ((y : ℕ) → small y ≡ true → big y ≡ true)
      → small x ≡ true
      → IsOwner big hash x
      → IsOwner small hash x
  IsOwner-shrink big small hash x sub here own = record {
    member = here;
    nearest = λ y h. own.nearest y (sub y h);
  }

  module _ (slot : Text) (ch : ConsistentHash) (key : Text) (c : IsConsistent ch) where
    -- After AddSlot on a consistent ring a key is at the new slot, or where it was before.
    pub get_slot-add_slot :
        (get_slot (add_slot slot ch) key ≡ slot)
        ⊎ (get_slot (add_slot slot ch) key ≡ get_slot ch key)
    get_slot-add_slot = elim (Bool-cases (length (add_slot slot ch).ring == 0)) [
      | inl empty ↦ inr (
          get_slot_empty (add_slot slot ch) key (ground arith)
          ∙ sym (get_slot_empty ch key (ground (arith, length-add_slot slot ch))))
      | inr full ↦
          let c' = add_slot-IsConsistent slot ch c in
          let (x, own, at) = get_slot-IsOwner (add_slot slot ch) key c' (ground arith) in
          elim (Bool-cases (is_vnode slot ch.virtual_nodes x)) [
            | inl new ↦ inl (ground (arith, at, get-add_slot slot ch x))
            | inr old ↦
                let here : contains ch.ring x ≡ true =
                  ground (arith, own.member, contains-add_slot slot ch x) in
                let own' =
                  IsOwner-shrink (contains (add_slot slot ch).ring) (contains ch.ring) (hash32 key)
                    x (λ y h. ground (arith, contains-add_slot slot ch y)) here own in
                inr (
                  ground (
                    arith,
                    at,
                    get_slot_at ch key c (contains→full ch.ring x here) x own',
                    get-add_slot slot ch x,
                  ))
          ]
    ]

    -- After RemoveSlot of a named slot on a consistent ring no key is at that slot, whether or not
    -- the call panics.
    pub get_slot-remove_slot-ne : slot ≢ [] → get_slot (state (remove_slot slot ch)) key ≢ slot
    get_slot-remove_slot-ne named e =
        let (x, at) = get_slot→get (state (remove_slot slot ch)) key (rw e named) in
        ground (arith, e, at, get-remove_slot slot ch x, c.own x slot)

    -- RemoveSlot on a consistent ring that has at least one set of virtual nodes leaves a key
    -- where it was, if the key was at another slot and no hash of the removed slot is mapped to
    -- another one.
    pub get_slot-remove_slot :
        ch.virtual_nodes ≤ length ch.ring
        → ((x : ℕ) (t : Text)
            → GoMap.get ch.vnode_to_slot x ≡ some t
            → t ≢ slot
            → is_vnode slot ch.virtual_nodes x ≡ false)
        → get_slot ch key ≢ slot
        → get_slot (state (remove_slot slot ch)) key ≡ get_slot ch key
    get_slot-remove_slot room apart other = elim (Bool-cases (length ch.ring == 0)) [
      | inl empty ↦
          get_slot_empty (state (remove_slot slot ch)) key (
            empty_congr ch.ring (state (remove_slot slot ch)).ring
              (λ y. ground (arith, contains-remove_slot slot ch y room, contains_empty ch.ring y))
              (ground arith))
          ∙ sym (get_slot_empty ch key (ground arith))
      | inr full ↦
          let (x, own, at) = get_slot-IsOwner ch key c (ground arith) in
          let free = apart x (get_slot ch key) at other in
          let after = state (remove_slot slot ch) in
          let here : contains after.ring x ≡ true =
            ground (arith, own.member, free, contains-remove_slot slot ch x room) in
          let own' =
            IsOwner-shrink (contains ch.ring) (contains after.ring) (hash32 key) x
              (λ y h. ground (arith, contains-remove_slot slot ch y room)) here own in
          ground (
            arith,
            at,
            free,
            get_slot_at after key (remove_slot-IsConsistent slot ch room c)
                (contains→full after.ring x here) x own',
            get-remove_slot slot ch x,
          )
    ]

    -- On a consistent ring that has no point in common with a slot, adding the slot and removing
    -- it again leaves every key where it was.
    pub get_slot-remove_slot-add_slot :
        ((x : ℕ) → is_vnode slot ch.virtual_nodes x ≡ true → contains ch.ring x ≡ false)
        → get_slot (state (remove_slot slot (add_slot slot ch))) key ≡ get_slot ch key
    get_slot-remove_slot-add_slot apart =
        let added = add_slot slot ch in
        let c' = add_slot-IsConsistent slot ch c in
        let room : added.virtual_nodes ≤ length added.ring =
          omega (arith, virtual_nodes-add_slot slot ch, length-add_slot slot ch) in
        get_slot_congr (state (remove_slot slot added)) ch key
          (remove_slot-IsConsistent slot added room c') c
          (λ x. ground (
            arith,
            apart x,
            virtual_nodes-add_slot slot ch,
            contains-remove_slot slot added x room,
            contains-add_slot slot ch x,
          ))
          (λ x. ground (
            arith,
            apart x,
            c.mapped x,
            virtual_nodes-add_slot slot ch,
            get-remove_slot slot added x,
            get-add_slot slot ch x,
          ))

    -- Adding a slot to a consistent ring a second time moves no key.
    pub get_slot-add_slot_again :
        get_slot (add_slot slot (add_slot slot ch)) key ≡ get_slot (add_slot slot ch) key
    get_slot-add_slot_again =
        let added = add_slot slot ch in
        let c' = add_slot-IsConsistent slot ch c in
        get_slot_congr (add_slot slot added) added key (add_slot-IsConsistent slot added c') c'
          (λ x. ground (
            arith,
            virtual_nodes-add_slot slot ch,
            contains-add_slot slot added x,
            contains-add_slot slot ch x,
          ))
          (λ x. ground (
            arith,
            virtual_nodes-add_slot slot ch,
            get-add_slot slot added x,
            get-add_slot slot ch x,
          ))
