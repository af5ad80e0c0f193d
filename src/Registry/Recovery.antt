-- ===== src/Registry/Recovery.antt =====
-- virtualnamespace.go: a checkpoint of the registry, and the start that reads it.
use tempura.Common.{◌≡◌, ◌≢◌, ◌∙◌, refl, ap, Option, none, some, [], arith, Text}
use tempura.Common.GoMap
use tempura.Common.GoMap.{GoMap, is_some}
use tempura.Common.GoMap.Range.{Unique}
use tempura.Common.Keys.{text_eq_iff, text_eq_refl, string_key}
use tempura.Redis.{Redis, value}
use tempura.Ring.Hash.{Murmur3}
use tempura.VirtualNamespace.{VirtualNamespace, NamespaceStatus, new_virtual_namespace}
use tempura.VirtualNamespace.Statuses.{get-get_all_namespaces_with_status}
use tempura.VirtualNamespace.Routing.{IsValid, new_virtual_namespace-IsValid}
use tempura.Registry
use tempura.Registry.{VirtualNamespaceRegistry}
use tempura.Registry.Checkpoint.{
  Schema, SameStatuses, SchemaJson, registry_key, no_namespaces, load_slots, load_schema, load_data,
  load_reply, new_virtual_namespace_registry, collect_schema, checkpoint,
}
use tempura.Registry.Loading.{
  get-load_schema, load_slots-IsValid, get-load_slots, loaded, statuses_of, get-collect_schema,
}

module _ ⦃murmur3 : Murmur3⦄ where
  -- the same statuses, in a virtual namespace that is valid
  abbrev pub Recovers : Option VirtualNamespace → Option VirtualNamespace → Type 0
  Recovers none none = Unit {0}
  Recovers none (some v') = ⊥
  Recovers (some v) none = ⊥
  Recovers (some v) (some v') =
      ((k : Text) → GoMap.get v'.namespaces k ≡ GoMap.get v.namespaces k) × IsValid v'

  get-load_new :
      (name : Text) (slots : GoMap Text NamespaceStatus) (k : Text)
      → Unique slots
      → GoMap.get (load_slots slots (new_virtual_namespace name)).namespaces k ≡ GoMap.get slots k
  unfolding new_virtual_namespace GoMap.get
  get-load_new name slots k u =
      ground (arith, get-load_slots slots (new_virtual_namespace name) k u)

  load_new-IsValid :
      (name : Text) (slots : GoMap Text NamespaceStatus)
      → Unique slots
      → IsValid (load_slots slots (new_virtual_namespace name))
  unfolding new_virtual_namespace GoMap.get
  load_new-IsValid name slots u =
      load_slots-IsValid slots (new_virtual_namespace name) u (λ k here. refl)
        (new_virtual_namespace-IsValid name)

  recover_loaded :
      (name : Text) (before : Option VirtualNamespace) (slots : Option (GoMap Text NamespaceStatus))
      → ((v : VirtualNamespace) → before ≡ some v → IsValid v)
      → SameStatuses (statuses_of before none) slots
      → Recovers before (loaded name slots none)
  recover_loaded name none none valid same = tt
  recover_loaded name none (some slots) valid same = same
  recover_loaded name (some v) none valid same = same
  recover_loaded name (some v) (some slots) valid (u, same) = (
    λ k.
        get-load_new name slots k u
        ∙ same k
        ∙ get-get_all_namespaces_with_status v k (valid v refl).unique,
    load_new-IsValid name slots u,
  )

  module _ (json : SchemaJson) where
    load_reply_at :
        (t : Text) (schema : Schema)
        → t ≢ []
        → json.unmarshal t ≡ some schema
        → load_reply json (value t) ≡ load_schema schema no_namespaces
    unfolding load_reply load_data
    load_reply_at t schema full read = ground (arith, read, text_eq_iff t [])

    pub checkpoint_at :
        (redis : Redis) (db : redis.Db) (vr : VirtualNamespaceRegistry) (t : Text)
        → json.marshal (collect_schema vr.namespaces []) ≡ some t
        → checkpoint redis json vr db ≡ redis.set db registry_key t
    unfolding checkpoint
    checkpoint_at redis db vr t written = ground (arith, written)

    reread :
        (redis : Redis) (db : redis.Db) (t : Text)
        → redis.IsUp db
        → redis.get (redis.set db registry_key t) registry_key ≡ value t
    reread redis db t up =
        redis.get-set db registry_key registry_key t up ∙ rw (text_eq_refl registry_key) refl

    restart_at :
        (redis : Redis) (db : redis.Db) (vr : VirtualNamespaceRegistry) (t : Text) (schema : Schema)
        → redis.IsUp db
        → json.marshal (collect_schema vr.namespaces []) ≡ some t
        → json.unmarshal t ≡ some schema
        → new_virtual_namespace_registry json redis (checkpoint redis json vr db)
          ≡ load_schema schema no_namespaces
    unfolding new_virtual_namespace_registry
    restart_at redis db vr t schema up written read = rw (checkpoint_at redis db vr t written) (
        ap (load_reply json) (reread redis db t up)
        ∙ load_reply_at t schema (json.marshal_full (collect_schema vr.namespaces []) t written)
            read)

    -- A registry of valid virtual namespaces that was written to Redis by a checkpoint, if the
    -- server answers, the names fit the JSON encoder and the schema can be encoded, comes back at
    -- the next start: the same virtual namespaces are known, each with the same statuses and
    -- valid.
    pub new_virtual_namespace_registry-checkpoint :
        (redis : Redis) (db : redis.Db) (vr : VirtualNamespaceRegistry) (t name : Text)
        → redis.IsUp db
        → Unique vr.namespaces
        → ((n : Text) (v : VirtualNamespace) → Registry.resolve n vr ≡ some v → IsValid v)
        → json.Fits (collect_schema vr.namespaces [])
        → json.marshal (collect_schema vr.namespaces []) ≡ some t
        → Recovers (Registry.resolve name vr) (
            Registry.resolve name
              (new_virtual_namespace_registry json redis (checkpoint redis json vr db)))
    unfolding Registry.resolve GoMap.get
    new_virtual_namespace_registry-checkpoint redis db vr t name up u valid fits written =
        let (schema, read, once, same) =
          json.unmarshal-marshal (collect_schema vr.namespaces []) t fits written in
        let slots : SameStatuses (statuses_of (GoMap.get vr.namespaces name) none)
            (GoMap.get schema name) =
          rw (get-collect_schema vr.namespaces [] name u) at (same name) in
        rw
          (
            restart_at redis db vr t schema up written read,
            get-load_schema schema no_namespaces name once,
          )
          (recover_loaded name (GoMap.get vr.namespaces name) (GoMap.get schema name) (valid name)
            slots)
