-- ===== src/Ring/Refinement.antt =====
-- resolver.go: the ring against its abstract view, a function from the points of the circle to the
-- slots, over any sequence of AddSlot and RemoveSlot.
use mathlib.Core.Path.{fun_ext}
use tempura.Common.{
  ℕ, ◌≤◌, ◌≡◌, refl, sym, ap, ◌∙◌, false, Option, none, some, List, [], ◌∷◌, arith, length, Text,
  if◌then◌else◌, ◌⊎◌, inl, inr, Bool-cases, ◌==◌,
}
use tempura.Common.GoMap
use tempura.Common.GoMap.{GoMap, is_some}
use tempura.Common.Keys.{uint32_key}
use tempura.Common.Run.{state, panics}
use tempura.Ring.Hash.{Murmur3}
use tempura.Ring.Owner.{IsOwner}
use tempura.Ring.View.{
  is_vnode, get-add_slot, virtual_nodes-add_slot, get-remove_slot, virtual_nodes-remove_slot,
}
use tempura.Ring.Invariant.{
  IsConsistent, add_slot-IsConsistent, remove_slot-IsConsistent, remove_slot-panics,
  new_consistent_hash-IsConsistent,
}
use tempura.Ring.Lookup.{get_slot-IsOwner, get_slot_empty, get_slot_congr, contains_empty}
use tempura.Ring.{ConsistentHash, new_consistent_hash, hash32, add_slot, remove_slot, get_slot}

pub data Op : Type 0 where
  add : Text → Op
  remove : Text → Op

-- the abstract ring: the slot of a point, if it is one
abbrev pub Points : Type 0
Points = ℕ → Option Text

module _ ⦃murmur3 : Murmur3⦄ where
  unfoldable pub run : List Op → ConsistentHash → ConsistentHash
  run [] ch = ch
  run (add slot ∷ ops) ch = run ops (add_slot slot ch)
  run (remove slot ∷ ops) ch = run ops (state (remove_slot slot ch))

  -- none of the calls panics
  abbrev pub NoPanic : List Op → ConsistentHash → Type 0
  NoPanic [] ch = Unit {0}
  NoPanic (add slot ∷ ops) ch = NoPanic ops (add_slot slot ch)
  NoPanic (remove slot ∷ ops) ch =
      (panics (remove_slot slot ch) ≡ false) × NoPanic ops (state (remove_slot slot ch))

  -- the points of a slot get another value
  abbrev pub assign : ℕ → Text → Option Text → Points → Points
  assign n slot value points x = if is_vnode slot n x then value else points x

  -- the same operations on the abstract ring, of `n` virtual nodes a slot
  unfoldable pub replay : ℕ → List Op → Points → Points
  replay n [] points = points
  replay n (add slot ∷ ops) points = replay n ops (assign n slot (some slot) points)
  replay n (remove slot ∷ ops) points = replay n ops (assign n slot none points)

  -- what a lookup may return: the empty text where there is no point, and else the slot of the first
  -- point clockwise from the hash of the key
  abbrev pub Answers : Points → Text → Text → Type 0
  Answers points key slot =
      ((slot ≡ []) × ((x : ℕ) → points x ≡ none))
      ⊎ (x : ℕ) × IsOwner (λ y. is_some (points y)) (hash32 key) x × (points x ≡ some slot)

  abbrev pub points_of : ConsistentHash → Points
  points_of ch = GoMap.get ch.vnode_to_slot

  run-replay :
      (ops : List Op) (ch : ConsistentHash)
      → IsConsistent ch
      → NoPanic ops ch
      → IsConsistent (run ops ch)
        × (points_of (run ops ch) ≡ replay ch.virtual_nodes ops (points_of ch))
  unfolding run replay
  run-replay [] ch c safe = (c, refl)
  run-replay (add slot ∷ ops) ch c safe =
      let after = add_slot slot ch in
      let (c', same) = run-replay ops after (add_slot-IsConsistent slot ch c) safe in
      (
        c',
        same
            ∙ ap (λ n. replay n ops (points_of after)) (virtual_nodes-add_slot slot ch)
            ∙ ap (replay ch.virtual_nodes ops) (fun_ext (get-add_slot slot ch)),
      )
  run-replay (remove slot ∷ ops) ch c (calm, safe) =
      let after = state (remove_slot slot ch) in
      let room : ch.virtual_nodes ≤ length ch.ring = ground (arith, remove_slot-panics slot ch) in
      let (c', same) = run-replay ops after (remove_slot-IsConsistent slot ch room c) safe in
      (
        c',
        same
            ∙ ap (λ n. replay n ops (points_of after)) (virtual_nodes-remove_slot slot ch)
            ∙ ap (replay ch.virtual_nodes ops) (fun_ext (get-remove_slot slot ch)),
      )

  get_slot-Answers :
      (ch : ConsistentHash) (key : Text)
      → IsConsistent ch
      → Answers (points_of ch) key (get_slot ch key)
  get_slot-Answers ch key c = elim (Bool-cases (length ch.ring == 0)) [
    | inl empty ↦ inl (
      get_slot_empty ch key (ground arith),
      λ x. ground (arith, c.mapped x, contains_empty ch.ring x),
    )
    | inr full ↦
        let (x, own, at) = get_slot-IsOwner ch key c (ground arith) in
        inr (x, rw (fun_ext c.mapped) at own, at)
  ]

  -- From the empty ring, after any sequence of AddSlot and RemoveSlot in which no call panics,
  -- GetSlot answers as the abstract ring that replays the sequence: a function from points to
  -- slots in which a slot is given to its points or taken from them, and the answer is the slot of
  -- the first point clockwise from the hash of the key, or the empty text where there is no point.
  pub run-Answers :
      (n : ℕ) (ops : List Op) (key : Text)
      → NoPanic ops (new_consistent_hash n)
      → Answers (replay n ops (λ x. none)) key (get_slot (run ops (new_consistent_hash n)) key)
  unfolding new_consistent_hash GoMap.get
  run-Answers n ops key safe =
      let ch = new_consistent_hash n in
      let (c, same) = run-replay ops ch (new_consistent_hash-IsConsistent n) safe in
      rw same at (get_slot-Answers (run ops ch) key c)

  -- Two sequences of AddSlot and RemoveSlot from the empty ring in which no call panics give each
  -- key the same slot, if the abstract ring is the same after both.
  pub get_slot-replay :
      (n : ℕ) (ops others : List Op) (key : Text)
      → NoPanic ops (new_consistent_hash n)
      → NoPanic others (new_consistent_hash n)
      → replay n ops (λ x. none) ≡ replay n others (λ x. none)
      → get_slot (run ops (new_consistent_hash n)) key
        ≡ get_slot (run others (new_consistent_hash n)) key
  unfolding new_consistent_hash GoMap.get
  get_slot-replay n ops others key safe_a safe_b same =
      let ch = new_consistent_hash n in
      let (ca, ra) = run-replay ops ch (new_consistent_hash-IsConsistent n) safe_a in
      let (cb, rb) = run-replay others ch (new_consistent_hash-IsConsistent n) safe_b in
      let maps : points_of (run ops ch) ≡ points_of (run others ch) = ra ∙ same ∙ sym rb in
      get_slot_congr (run ops ch) (run others ch) key ca cb
        (λ x. ca.mapped x ∙ ap is_some (ap (λ f. f x) maps) ∙ sym (cb.mapped x))
        (λ x. ap (λ f. f x) maps)
