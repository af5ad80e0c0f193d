-- ===== src/VirtualNamespace/Routing.antt =====
-- virtualnamespace.go: the invariant between the ring and the statuses, and where keys go.
use tempura.Common.{
  ◌==◌, Bool-cases, inl, inr, ◌⊎◌, ℕ, ◌≤◌, ◌≡◌, ◌≢◌, refl, true, none, some, [], arith, Text,
  if◌then◌else◌, length, ltb,
}
use tempura.Common.GoMap
use tempura.Common.GoMap.{GoMap, is_some}
use tempura.Common.GoMap.Range.{Unique, put-Unique}
use tempura.Common.Keys.{text_eq, text_eq_iff, string_key, uint32_key}
use tempura.Common.Run.{state, panics, state-within, panics-within}
use tempura.Namespace.{Namespace}
use tempura.Ring.Hash.{Murmur3}
use tempura.Ring.{get_slot, remove_slot}
use tempura.Ring.View.{
  get-add_slot, virtual_nodes-add_slot, length-add_slot, get-remove_slot, virtual_nodes-remove_slot,
}
use tempura.Ring.Invariant.{
  IsConsistent, new_consistent_hash-IsConsistent, add_slot-IsConsistent, remove_slot-IsConsistent,
  remove_slot-panics,
}
use tempura.Ring.Lookup.{get_slot-IsOwner, get_slot_empty}
use tempura.Ring.Disruption.{get_slot-remove_slot-ne}
use tempura.VirtualNamespace.Statuses.{occurrences, occurrences-get_all_namespaces}
use tempura.VirtualNamespace.{
  get_all_namespaces, VirtualNamespace, new_virtual_namespace, namespace_active, namespace_cordoned,
  add, remove,
}

module _ ⦃murmur3 : Murmur3⦄ where
  pub record IsValid (v : VirtualNamespace) : Type 0 where
    pub consistent : IsConsistent v.ring
    pub width : v.ring.virtual_nodes ≡ 50
    pub unique : Unique v.namespaces
    pub active :
        (x : ℕ) (slot : Text)
        → GoMap.get v.ring.vnode_to_slot x ≡ some slot
        → GoMap.get v.namespaces slot ≡ some namespace_active

  pub new_virtual_namespace-IsValid : (name : Text) → IsValid (new_virtual_namespace name)
  unfolding new_virtual_namespace GoMap.get
  new_virtual_namespace-IsValid name = record {
    consistent = new_consistent_hash-IsConsistent 50;
    width = refl;
    unique = tt;
    active = λ x slot h. cc;
  }

  pub add-IsValid :
      (namespace : Namespace) (v : VirtualNamespace) → IsValid v → IsValid (add namespace v)
  unfolding add
  add-IsValid namespace v valid =
      let slot = namespace.name in
      record {
        consistent = add_slot-IsConsistent slot v.ring valid.consistent;
        width = rw virtual_nodes-add_slot valid.width;
        unique = put-Unique slot namespace_active v.namespaces valid.unique;
        active = λ x t h. ground (
          arith,
          get-add_slot slot v.ring x,
          GoMap.get-put slot t namespace_active v.namespaces,
          text_eq_iff slot t,
          valid.active x t,
        );
      }

  -- the namespaces and the ring that Remove leaves, whether or not it panics
  pub ring-remove :
      (namespace : Namespace) (v : VirtualNamespace)
      → (state (remove namespace v)).ring ≡ state (remove_slot namespace.name v.ring)
  unfolding remove
  ring-remove namespace v = rw state-within

  pub get-remove :
      (namespace : Namespace) (v : VirtualNamespace) (k : Text)
      → GoMap.get (state (remove namespace v)).namespaces k ≡ (
          if text_eq namespace.name k
          then (if is_some (GoMap.get v.namespaces k) then some namespace_cordoned else none)
          else GoMap.get v.namespaces k)
  unfolding remove
  get-remove namespace v k = rw state-within (
      ground (
        arith,
        GoMap.get-put namespace.name k namespace_cordoned v.namespaces,
        text_eq_iff namespace.name k,
      ))

  remove-Unique :
      (namespace : Namespace) (v : VirtualNamespace)
      → Unique v.namespaces
      → Unique (state (remove namespace v)).namespaces
  unfolding remove
  remove-Unique namespace v u =
      rw state-within (ground (arith, put-Unique namespace.name namespace_cordoned v.namespaces u))

  -- Remove on a valid virtual namespace panics exactly if its ring has fewer than 50 points.
  pub remove-panics :
      (namespace : Namespace) (v : VirtualNamespace)
      → IsValid v
      → panics (remove namespace v) ≡ ltb (length v.ring.ring) 50
  unfolding remove
  remove-panics namespace v valid =
      rw (panics-within, remove_slot-panics namespace.name v.ring, valid.width)

  -- Remove keeps the invariant where it does not panic.
  pub remove-IsValid :
      (namespace : Namespace) (v : VirtualNamespace)
      → 50 ≤ length v.ring.ring
      → IsValid v
      → IsValid (state (remove namespace v))
  remove-IsValid namespace v room valid =
      let slot = namespace.name in
      record {
        consistent =
            rw ring-remove
              (remove_slot-IsConsistent slot v.ring (rw valid.width room) valid.consistent);
        width = rw (ring-remove, virtual_nodes-remove_slot) valid.width;
        unique = remove-Unique namespace v valid.unique;
        active = λ x t h. ground (
          arith,
          ring-remove namespace v,
          get-remove_slot slot v.ring x,
          get-remove namespace v t,
          text_eq_iff slot t,
          valid.active x t,
          valid.consistent.own x t,
        );
      }

  -- A key is sent to an active namespace, or to none where the ring is empty.
  pub get_slot-cases :
      (v : VirtualNamespace) (key : Text)
      → IsValid v
      → ((length v.ring.ring ≡ 0) × (get_slot v.ring key ≡ []))
        ⊎ (GoMap.get v.namespaces (get_slot v.ring key) ≡ some namespace_active)
  get_slot-cases v key valid = elim (Bool-cases (length v.ring.ring == 0)) [
    | inl empty ↦ inl (ground arith, get_slot_empty v.ring key (ground arith))
    | inr full ↦
        let (x, own, at) = get_slot-IsOwner v.ring key valid.consistent (ground arith) in
        inr (valid.active x (get_slot v.ring key) at)
  ]

  -- Once a physical namespace is added to a valid virtual namespace every key is sent to an active
  -- one.
  pub add-routes :
      (namespace : Namespace) (v : VirtualNamespace) (key : Text)
      → IsValid v
      → GoMap.get (add namespace v).namespaces (get_slot (add namespace v).ring key)
        ≡ some namespace_active
  add-routes namespace v key valid =
      let valid' = add-IsValid namespace v valid in
      let (x, own, at) =
        get_slot-IsOwner (add namespace v).ring key valid'.consistent
          (unfold add in omega (arith, length-add_slot namespace.name v.ring, valid.width)) in
      valid'.active x (get_slot (add namespace v).ring key) at

  -- Remove of a named physical namespace that a valid virtual namespace knows leaves it cordoned
  -- and listed once, and no key goes to it, whether or not the call panics.
  pub remove-cordons :
      (namespace : Namespace) (v : VirtualNamespace) (key : Text)
      → IsValid v
      → namespace.name ≢ []
      → is_some (GoMap.get v.namespaces namespace.name) ≡ true
      → (GoMap.get (state (remove namespace v)).namespaces namespace.name ≡ some namespace_cordoned)
        × (occurrences (get_all_namespaces (state (remove namespace v))) namespace.name ≡ 1)
        × (get_slot (state (remove namespace v)).ring key ≢ namespace.name)
  remove-cordons namespace v key valid named known =
      let v' = state (remove namespace v) in
      let cordoned : GoMap.get v'.namespaces namespace.name ≡ some namespace_cordoned =
        ground (
          arith,
          get-remove namespace v namespace.name,
          text_eq_iff namespace.name namespace.name,
        ) in
      (
        cordoned,
        ground (
          arith,
          occurrences-get_all_namespaces v' namespace.name,
          remove-Unique namespace v valid.unique,
        ),
        rw ring-remove (get_slot-remove_slot-ne namespace.name v.ring key valid.consistent named),
      )
