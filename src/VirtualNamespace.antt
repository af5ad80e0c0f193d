-- ===== src/VirtualNamespace.antt =====
-- virtualnamespace.go: VirtualNamespace, a ring of physical namespaces and their statuses. Each
-- method holds the mutex for its whole body, so it is one step.
pub mod Statuses
pub mod Routing
use tempura.Common.{Option, none, some, List, [], ◌∷◌, ◌++◌, Text, codes, if◌then◌else◌}
use tempura.Common.GoMap
use tempura.Common.GoMap.{GoMap, is_some}
use tempura.Common.Keys.{string_key}
use tempura.Common.Run.{Run, within}
use tempura.Ring.Hash.{Murmur3}
use tempura.Ring.{ConsistentHash, new_consistent_hash, add_slot, remove_slot}
use tempura.Namespace.{Namespace}

-- `type NamespaceStatus string`; a checkpoint may hold other values than the two constants
abbrev pub NamespaceStatus : Type 0
NamespaceStatus = Text

abbrev pub namespace_active : NamespaceStatus
namespace_active = codes "active"

abbrev pub namespace_cordoned : NamespaceStatus
namespace_cordoned = codes "cordoned"

pub record VirtualNamespace : Type 0 where
  pub name : Text
  pub ring : ConsistentHash
  pub namespaces : GoMap Text NamespaceStatus

unfoldable pub new_virtual_namespace : Text → VirtualNamespace
unfolding new_consistent_hash
new_virtual_namespace name = record { name = name; ring = new_consistent_hash 50; namespaces = [] }

module _ ⦃murmur3 : Murmur3⦄ where
  unfoldable pub add : Namespace → VirtualNamespace → VirtualNamespace
  add namespace v = record v {
    namespaces = GoMap.put namespace.name namespace_active v.namespaces;
    ring = add_slot namespace.name v.ring;
  }

  -- the status is set before the ring is changed, and stays set if that panics
  unfoldable pub remove : Namespace → VirtualNamespace → Run VirtualNamespace
  remove namespace v =
      let cordoned =
        if is_some (GoMap.get v.namespaces namespace.name)
        then GoMap.put namespace.name namespace_cordoned v.namespaces
        else v.namespaces in
      within (λ ring. record v { namespaces = cordoned; ring = ring })
        (remove_slot namespace.name v.ring)

-- for k, val := range v.Namespaces { result[k] = val }
unfoldable pub copy_statuses :
    List (Text × NamespaceStatus) → GoMap Text NamespaceStatus → GoMap Text NamespaceStatus
copy_statuses [] result = result
copy_statuses ((k, val) ∷ entries) result = copy_statuses entries (GoMap.put k val result)

unfoldable pub get_all_namespaces_with_status : VirtualNamespace → GoMap Text NamespaceStatus
unfolding copy_statuses
get_all_namespaces_with_status v = copy_statuses v.namespaces []

-- for k := range v.Namespaces { result = append(result, k) }
unfoldable pub append_names : List (Text × NamespaceStatus) → List Text → List Text
append_names [] result = result
append_names ((k, val) ∷ entries) result = append_names entries (result ++ (k ∷ []))

unfoldable pub get_all_namespaces : VirtualNamespace → List Text
unfolding append_names
get_all_namespaces v = append_names v.namespaces []
