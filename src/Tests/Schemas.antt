-- ===== src/Tests/Schemas.antt =====
-- A checkpoint of a registry with one virtual namespace, and the start that reads it.
use tempura.Common.{
  zero, suc, ◌≡◌, ◌≢◌, ◌∙◌, refl, ap, true, Option, some, none, List, [], ◌∷◌, ◌++◌, arith, Text,
  codes, All, append-nil, Bool-cases, inl, inr,
}
use tempura.Common.GoMap
use tempura.Common.GoMap.{GoMap}
use tempura.Common.GoMap.Range.{Unique}
use tempura.Common.Keys.{string_key, text_eq}
use tempura.Registry
use tempura.VirtualNamespace.{
  VirtualNamespace, NamespaceStatus, add, new_virtual_namespace, get_all_namespaces_with_status,
  copy_statuses,
}
use tempura.VirtualNamespace.Routing.{IsValid}
use tempura.Registry.{VirtualNamespaceRegistry}
use tempura.Registry.Checkpoint.{
  Schema, registry_key, SameStatuses, SchemaJson, new_virtual_namespace_registry, collect_schema,
  checkpoint,
}
use tempura.Registry.Recovery.{Recovers, new_virtual_namespace_registry-checkpoint}
use tempura.Resolver.{Payload, Resolver, resolve}
use tempura.Resolver.SharedStore
use tempura.Resolver.SharedStore.{
  Event, resolved, completed, checkpointed, run-Recovers, resolve-registry_key,
}
use tempura.Tests.Base.{polynomial, server, Server}
use tempura.Tests.Codecs.{write_all, read_all, read-write_all}
use tempura.Tests.Namespaces.{shop, shop-IsValid}

-- a name has a zero in front, and a slot a one, with its status behind it
abbrev slot_texts : GoMap Text NamespaceStatus → List Text → List Text
slot_texts [] rest = rest
slot_texts ((slot, status) ∷ slots) rest = (1 ∷ slot) ∷ status ∷ slot_texts slots rest

abbrev schema_texts : Schema → List Text
schema_texts [] = []
schema_texts ((name, slots) ∷ schema) = (0 ∷ name) ∷ slot_texts slots (schema_texts schema)

-- the slots before the first name, and what stands under the names
abbrev read_texts : List Text → GoMap Text NamespaceStatus × Schema
read_texts ((zero ∷ name) ∷ rest) =
    let (slots, schema) = read_texts rest in ([], (name, slots) ∷ schema)
read_texts ((suc n ∷ slot) ∷ status ∷ rest) =
    let (slots, schema) = read_texts rest in ((slot, status) ∷ slots, schema)
read_texts _ = ([], [])

read_slots :
    (slots : GoMap Text NamespaceStatus) (rest : List Text)
    → read_texts (slot_texts slots rest) ≡ (slots ++ (read_texts rest).0, (read_texts rest).1)
read_slots [] rest = refl
read_slots ((slot, status) ∷ slots) rest = rw (read_slots slots rest)

read_schema : (schema : Schema) → read_texts (schema_texts schema) ≡ ([], schema)
read_schema [] = refl
read_schema ((name, slots) ∷ schema) =
    rw (read_slots slots (schema_texts schema), read_schema schema, append-nil slots)

abbrev EachOnce : Schema → Type 0
EachOnce schema = Unique schema × All (λ (e : Text × GoMap Text NamespaceStatus). Unique e.1) schema

same_statuses :
    (schema : Schema) (name : Text)
    → All (λ (e : Text × GoMap Text NamespaceStatus). Unique e.1) schema
    → SameStatuses (GoMap.get schema name) (GoMap.get schema name)
unfolding GoMap.get
same_statuses [] name once = tt
same_statuses ((n, slots) ∷ schema) name (u, once) = elim (Bool-cases (text_eq n name)) [
  | inl same ↦ rw same (u, λ k. refl)
  | inr other ↦ rw other (same_statuses schema name once)
]

abbrev write_schema : Schema → Text
write_schema schema = write_all ([] ∷ schema_texts schema)

abbrev after_head : List Text → Option Schema
after_head [] = none
after_head (t ∷ ts) = some (read_texts ts).1

read-write_schema : (schema : Schema) → after_head (read_all [] (write_schema schema)) ≡ some schema
read-write_schema schema =
    ap after_head (read-write_all ([] ∷ schema_texts schema)) ∙ rw (read_schema schema) refl

pub schema_back :
    (s : Schema) (t : Text)
    → EachOnce s
    → some (write_schema s) ≡ some t
    → (s' : Schema) × (after_head (read_all [] t) ≡ some s')
      × Unique s'
      × ((name : Text) → SameStatuses (GoMap.get s name) (GoMap.get s' name))
schema_back s t (u, once) e =
    (s, ground (arith, e, read-write_schema s), u, λ name. same_statuses s name once)

pub schema_full : (s : Schema) (t : Text) → some (write_schema s) ≡ some t → t ≢ []
schema_full s t e blank = ground (arith, e, blank)

abbrev pub text_json : SchemaJson
text_json = record {
  marshal = λ s. some (write_schema s);
  unmarshal = λ t. after_head (read_all [] t);
  Fits = EachOnce;
  marshal_full = schema_full;
  unmarshal-marshal = schema_back;
}

abbrev registry : VirtualNamespaceRegistry
registry = record { namespaces = (codes "shop", shop) ∷ [] }

abbrev database : Server
database = record { up = true; entries = [] }

registry-IsValid :
    (n : Text) (v : VirtualNamespace) → Registry.resolve n registry ≡ some v → IsValid v
unfolding Registry.resolve GoMap.get
registry-IsValid n v known = elim (Bool-cases (text_eq (codes "shop") n)) [
  | inl same ↦ let e : shop ≡ v = ground (arith, same, known) in rw (← e) shop-IsValid
  | inr other ↦ ground (arith, other, known)
]

registry-EachOnce : EachOnce (collect_schema registry.namespaces [])
unfolding collect_schema GoMap.get GoMap.put get_all_namespaces_with_status copy_statuses add
    new_virtual_namespace
registry-EachOnce = ((refl, tt), ((refl, tt), tt))

registry-once : Unique registry.namespaces
unfolding GoMap.get
registry-once = (refl, tt)

new_virtual_namespace_registry-checkpoint_example :
    Recovers (Registry.resolve (codes "shop") registry) (
      Registry.resolve (codes "shop") (
        new_virtual_namespace_registry text_json server
          (checkpoint server text_json registry database)))
unfolding GoMap.get
new_virtual_namespace_registry-checkpoint_example =
    new_virtual_namespace_registry-checkpoint text_json server database registry
      (write_schema (collect_schema registry.namespaces [])) (codes "shop") (refl, tt) (refl, tt)
      registry-IsValid registry-EachOnce refl

-- the server holds the cache as well
abbrev both_clients : Resolver server
both_clients = record {
  cache = record { client = database; cache_hit_count = 0; cache_miss_count = 0 };
  allocated = [];
}

abbrev events : List Event
events =
    resolved (record { workflow_id = codes "order-17"; virtual_namespace = codes "shop" }) registry
    ∷ completed (codes "order-17")
    ∷ []

run-Recovers_example : Recovers (Registry.resolve (codes "shop") registry) (
    Registry.resolve (codes "shop") (
      new_virtual_namespace_registry text_json server
        (SharedStore.run server events
          (checkpointed server text_json registry both_clients)).cache.client))
run-Recovers_example =
    run-Recovers server text_json events both_clients registry
      (write_schema (collect_schema registry.namespaces [])) (codes "shop") (refl, tt)
      ((λ e. cc e), ((λ e. cc e), tt)) registry-once registry-IsValid registry-EachOnce refl

abbrev odd_name : Payload
odd_name = record { workflow_id = registry_key; virtual_namespace = codes "shop" }

resolve-registry_key_example :
    (resolve server odd_name registry (checkpointed server text_json registry both_clients)).0
    ≡ (write_schema (collect_schema registry.namespaces []), true)
resolve-registry_key_example =
    resolve-registry_key server text_json odd_name registry registry both_clients
      (write_schema (collect_schema registry.namespaces [])) (refl, tt) refl refl
