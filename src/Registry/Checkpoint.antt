-- ===== src/Registry/Checkpoint.antt =====
-- virtualnamespace.go, NewVirtualNamespaceRegistry: the registry is loaded from Redis, and written
-- back by a goroutine every ten seconds. encoding/json on the schema is a parameter.
use tempura.Common.{◌≡◌, ◌≢◌, Option, none, some, List, [], ◌∷◌, Text, codes, if◌then◌else◌}
use tempura.Common.GoMap
use tempura.Common.GoMap.{GoMap}
use tempura.Common.GoMap.Range.{Unique}
use tempura.Common.Keys.{text_eq, string_key}
use tempura.Redis.{Redis, Reply, value, missing, failed}
use tempura.Ring.Hash.{Murmur3}
use tempura.VirtualNamespace.{
  VirtualNamespace, NamespaceStatus, namespace_active, new_virtual_namespace, add,
  get_all_namespaces_with_status,
}
use tempura.Registry.{VirtualNamespaceRegistry}

-- map[string]map[string]NamespaceStatus
abbrev pub Schema : Type 0
Schema = GoMap Text (GoMap Text NamespaceStatus)

-- the same entries, in whatever order; the second map has each key once
abbrev pub SameStatuses :
    Option (GoMap Text NamespaceStatus) → Option (GoMap Text NamespaceStatus) → Type 0
SameStatuses none none = Unit {0}
SameStatuses none (some b) = ⊥
SameStatuses (some a) none = ⊥
SameStatuses (some a) (some b) = Unique b × ((k : Text) → GoMap.get b k ≡ GoMap.get a k)

-- `Fits` says that the names and statuses are valid UTF-8, which encoding/json keeps as it is.
pub record SchemaJson : Type 1 where
  pub marshal : Schema → Option Text
  -- `none` is an error
  pub unmarshal : Text → Option Schema
  pub Fits : Schema → Type 0
  pub marshal_full : (s : Schema) (t : Text) → marshal s ≡ some t → t ≢ []
  pub unmarshal-marshal :
      (s : Schema) (t : Text)
      → Fits s
      → marshal s ≡ some t
      → (s' : Schema) × (unmarshal t ≡ some s')
        × Unique s'
        × ((name : Text) → SameStatuses (GoMap.get s name) (GoMap.get s' name))

-- the address that the client is made for
unfoldable pub registry_address : Text → Text
registry_address redis_addr = if text_eq redis_addr [] then codes "localhost:6379" else redis_addr

abbrev pub registry_key : Text
registry_key = codes "virtual_namespace_registry"

abbrev pub no_namespaces : VirtualNamespaceRegistry
no_namespaces = record { namespaces = [] }

module _ ⦃murmur3 : Murmur3⦄ where
  -- an active slot is added, and any other only listed
  unfoldable pub load_slot : Text → NamespaceStatus → VirtualNamespace → VirtualNamespace
  load_slot slot status v =
      if text_eq status namespace_active
      then add (record { cluster = none; name = slot }) v
      else record v { namespaces = GoMap.put slot status v.namespaces }

  -- for slot, status := range slotsMap
  unfoldable pub load_slots : List (Text × NamespaceStatus) → VirtualNamespace → VirtualNamespace
  unfolding load_slot
  load_slots [] v = v
  load_slots ((slot, status) ∷ slots) v = load_slots slots (load_slot slot status v)

  -- for virtualName, slotsMap := range newSchema
  unfoldable pub load_schema :
      List (Text × GoMap Text NamespaceStatus) → VirtualNamespaceRegistry → VirtualNamespaceRegistry
  unfolding load_slots
  load_schema [] vr = vr
  load_schema ((virtual_name, slots_map) ∷ schema) vr = load_schema schema (record {
    namespaces =
        GoMap.put virtual_name (load_slots slots_map (new_virtual_namespace virtual_name))
          vr.namespaces;
  })

  module _ (json : SchemaJson) where
    unfoldable pub load_data : Text → VirtualNamespaceRegistry
    unfolding load_schema
    load_data namespace_data =
        if text_eq namespace_data [] then no_namespaces else elim (json.unmarshal namespace_data) [
          | none ↦ no_namespaces
          | some new_schema ↦ load_schema new_schema no_namespaces
        ]

    -- a missing key and a failure are the same
    unfoldable pub load_reply : Reply → VirtualNamespaceRegistry
    unfolding load_data
    load_reply (value redis_data) = load_data redis_data
    load_reply missing = no_namespaces
    load_reply failed = no_namespaces

    unfoldable pub new_virtual_namespace_registry :
        (redis : Redis) → redis.Db → VirtualNamespaceRegistry
    unfolding load_reply
    new_virtual_namespace_registry redis client = load_reply (redis.get client registry_key)

-- the schema of a registry
unfoldable pub collect_schema : List (Text × VirtualNamespace) → Schema → Schema
collect_schema [] schema = schema
collect_schema ((name, v) ∷ namespaces) schema =
    collect_schema namespaces (GoMap.put name (get_all_namespaces_with_status v) schema)

-- one tick of the goroutine
unfoldable pub checkpoint :
    (redis : Redis) (json : SchemaJson) → VirtualNamespaceRegistry → redis.Db → redis.Db
unfolding collect_schema
checkpoint redis json vr db = elim (json.marshal (collect_schema vr.namespaces [])) [
  | none ↦ db
  | some byte_data ↦ redis.set db registry_key byte_data
]
