-- ===== src/Resolver.antt =====
-- resolver.go, the type Resolver: the physical namespace of a workflow, from the routing cache or
-- else from the ring of its virtual namespace.
pub mod Sticky
pub mod Guarantees
pub mod Races
pub mod Changing
pub mod SharedStore
pub mod Counting
use tempura.Common.{Bool, true, false, Option, none, some, List, [], ◌∷◌, ◌++◌, Text, if◌then◌else◌}
use tempura.Common.Keys.{text_eq}
use tempura.Redis.{Redis}
use tempura.Mappings
use tempura.Mappings.{Mappings}
use tempura.Ring.Hash.{Murmur3}
use tempura.Ring.{get_slot}
use tempura.VirtualNamespace.{VirtualNamespace}
use tempura.Registry
use tempura.Registry.{VirtualNamespaceRegistry}

-- payload.go
pub record Payload : Type 0 where
  pub workflow_id : Text
  pub virtual_namespace : Text

-- `allocated`: the labels with which the counter totalWorkflowAllocated was incremented
pub record Resolver (redis : Redis) : Type 0 where
  pub cache : Mappings redis
  pub allocated : List Text

unfoldable pub new_resolver : (redis : Redis) → Mappings redis → Resolver redis
new_resolver redis cache = record { cache = cache; allocated = [] }

module _ (redis : Redis) ⦃murmur3 : Murmur3⦄ where
  -- the part of Resolve behind the cache
  unfoldable pub allocate :
      Text → Option VirtualNamespace → Resolver redis → (Text × Bool) × Resolver redis
  allocate key none r = (([], false), r)
  allocate key (some virtual_namespace) r =
      let phys_ns = get_slot virtual_namespace.ring key in
      (
        (phys_ns, false),
        record {
          cache = Mappings.put redis key phys_ns r.cache;
          allocated = r.allocated ++ (phys_ns ∷ []);
        },
      )

  unfoldable pub resolve :
      Payload → VirtualNamespaceRegistry → Resolver redis → (Text × Bool) × Resolver redis
  unfolding allocate
  resolve payload registry r =
      let key = payload.workflow_id in
      let (phys_ns, cache) = Mappings.get redis key r.cache in
      let r' = record r { cache = cache } in
      if text_eq phys_ns []
      then allocate key (Registry.resolve payload.virtual_namespace registry) r'
      else ((phys_ns, true), r')
