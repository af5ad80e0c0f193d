-- ===== src/Ring/Lookup.antt =====
-- What GetSlot returns, in terms of the two views of a consistent ring.
use mathlib.Core.Path.{fun_ext, subst}
use tempura.Common.{
  ℕ, ◌^◌, ◌<◌, ◌≡◌, ◌≢◌, refl, sym, ◌∙◌, Bool, true, false, some, List, [], ◌∷◌, arith, length,
  Text, contains, contains-get_or, get_or, inl, inr, Bool-cases, ◌==◌,
}
use tempura.Common.GoMap
use tempura.Common.GoMap.{GoMap, is_some}
use tempura.Common.Keys.{uint32_key}
use tempura.Ring.Hash.{Murmur3}
use tempura.Ring.Owner.{IsOwner, IsOwner-unique, slot_index-IsOwner}
use tempura.Ring.Invariant.{IsConsistent}
use tempura.Ring.{ConsistentHash, hash32, get_slot, slot_at, slot_index}

module _ ⦃murmur3 : Murmur3⦄ where
  pub hash32-lt : (key : Text) → hash32 key < 2 ^ 32
  unfolding hash32
  hash32-lt key = murmur3.sum32_lt key

  -- A name that GetSlot returns is empty, or the slot that the map has for some hash.
  pub get_slot→get :
      (ch : ConsistentHash) (key : Text)
      → get_slot ch key ≢ []
      → (x : ℕ) × (GoMap.get ch.vnode_to_slot x ≡ some (get_slot ch key))
  unfolding get_slot slot_at
  get_slot→get ch key h = (get_or ch.ring (slot_index ch.ring (hash32 key)) 0, ground arith)

  pub get_slot_empty :
      (ch : ConsistentHash) (key : Text) → length ch.ring ≡ 0 → get_slot ch key ≡ []
  unfolding get_slot
  get_slot_empty ch key h = ground arith

  pub get_slot_full :
      (ch : ConsistentHash) (key : Text)
      → 0 < length ch.ring
      → get_slot ch key
        ≡ slot_at ch.vnode_to_slot (get_or ch.ring (slot_index ch.ring (hash32 key)) 0)
  unfolding get_slot
  get_slot_full ch key h = ground arith

  module _ (ch : ConsistentHash) (key : Text) (c : IsConsistent ch)
      (full : 0 < length ch.ring) where
    -- On a consistent ring that is not empty GetSlot returns the slot of a point of the ring that
    -- is nearest clockwise from the hash of the key, wrapping around at 2 ^ 32.
    pub get_slot-IsOwner :
        (x : ℕ) × IsOwner (contains ch.ring) (hash32 key) x
        × (GoMap.get ch.vnode_to_slot x ≡ some (get_slot ch key))
    unfolding slot_at
    get_slot-IsOwner =
        let x = get_or ch.ring (slot_index ch.ring (hash32 key)) 0 in
        let own = slot_index-IsOwner ch.ring (hash32 key) c.sorted full c.bound (hash32-lt key) in
        (x, own, ground (arith, get_slot_full ch key full, c.mapped x, own.member))

    -- Whatever point is known to be nearest decides the slot.
    pub get_slot_at :
        (x : ℕ)
        → IsOwner (contains ch.ring) (hash32 key) x
        → GoMap.get ch.vnode_to_slot x ≡ some (get_slot ch key)
    get_slot_at x own =
        let (y, own', at) = get_slot-IsOwner in
        rw (IsOwner-unique (contains ch.ring) (hash32 key) x y c.bound (hash32-lt key) own own') at

  pub contains→full : (l : List ℕ) (x : ℕ) → contains l x ≡ true → 0 < length l
  unfolding contains
  contains→full [] x h = cc
  contains→full (y ∷ ys) x h = omega arith

  pub contains_empty : (l : List ℕ) (x : ℕ) → length l ≡ 0 → contains l x ≡ false
  unfolding contains
  contains_empty [] x h = refl
  contains_empty (y ∷ ys) x h = absurd (omega arith)

  pub empty_congr :
      (l m : List ℕ) → ((x : ℕ) → contains l x ≡ contains m x) → length l ≡ 0 → length m ≡ 0
  unfolding get_or
  empty_congr l [] same h = refl
  empty_congr l (y ∷ ys) same h =
      absurd
        (omega (arith, contains→full l y (same y ∙ contains-get_or (y ∷ ys) 0 0 (omega arith))))

  -- GetSlot depends on the two views alone.
  pub get_slot_congr :
      (a b : ConsistentHash) (key : Text)
      → IsConsistent a
      → IsConsistent b
      → ((x : ℕ) → contains a.ring x ≡ contains b.ring x)
      → ((x : ℕ) → GoMap.get a.vnode_to_slot x ≡ GoMap.get b.vnode_to_slot x)
      → get_slot a key ≡ get_slot b key
  get_slot_congr a b key ca cb rings maps = elim (Bool-cases (length a.ring == 0)) [
    | inl empty ↦
        get_slot_empty a key (ground arith)
        ∙ sym (get_slot_empty b key (empty_congr a.ring b.ring rings (ground arith)))
    | inr full ↦
        let full_a : 0 < length a.ring = ground arith in
        let (x, own, at) = get_slot-IsOwner a key ca full_a in
        let own_b : IsOwner (contains b.ring) (hash32 key) x =
          subst (λ (p : ℕ → Bool). IsOwner p (hash32 key) x) (fun_ext rings) own in
        let at_b = get_slot_at b key cb (contains→full b.ring x own_b.member) x own_b in
        ground (arith, at, at_b, maps x)
  ]
