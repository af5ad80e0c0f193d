-- ===== src/Registry.antt =====
-- virtualnamespace.go: VirtualNamespaceRegistry, the map from a name to its virtual namespace. The
-- map holds pointers; one object stands under one name, so an object is changed in its place.
pub mod Checkpoint
pub mod Loading
pub mod Recovery
use tempura.Common.{ℕ, Option, Text, length}
use tempura.Common.GoMap
use tempura.Common.GoMap.{GoMap}
use tempura.Common.Keys.{string_key}
use tempura.VirtualNamespace.{VirtualNamespace}

pub record VirtualNamespaceRegistry : Type 0 where
  pub namespaces : GoMap Text VirtualNamespace

unfoldable pub get_size : VirtualNamespaceRegistry → ℕ
get_size vr = length vr.namespaces

-- `none` is the nil pointer
unfoldable pub resolve : Text → VirtualNamespaceRegistry → Option VirtualNamespace
resolve namespace vr = GoMap.get vr.namespaces namespace

unfoldable pub register : VirtualNamespace → VirtualNamespaceRegistry → VirtualNamespaceRegistry
register v vr = record { namespaces = GoMap.put v.name v vr.namespaces }

-- a method call through the pointer that `resolve` returned under this name
unfoldable pub update :
    Text → VirtualNamespace → VirtualNamespaceRegistry → VirtualNamespaceRegistry
update namespace v vr = record { namespaces = GoMap.put namespace v vr.namespaces }
