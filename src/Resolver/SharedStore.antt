-- ===== src/Resolver/SharedStore.antt =====
-- resolver.go and virtualnamespace.go on one Redis server, which holds the routing cache and the
-- checkpoint of the registry. The clients of main.go reach it under the same address by default.
use tempura.Common.{
  ◌≡◌, ◌≢◌, refl, ap, ◌∙◌, true, Option, none, some, List, [], ◌∷◌, arith, Text, All, Option-cases,
  inl, inr,
}
use tempura.Common.Keys.{text_eq_iff, text_eq_refl, string_key}
use tempura.Common.GoMap.Range.{Unique}
use tempura.Redis.{Redis, value}
use tempura.Mappings
use tempura.Mappings.{Mappings}
use tempura.Ring.Hash.{Murmur3}
use tempura.Registry
use tempura.Registry.{VirtualNamespaceRegistry}
use tempura.Registry.Checkpoint.{
  SchemaJson, checkpoint, collect_schema, new_virtual_namespace_registry, registry_key,
}
use tempura.Registry.Recovery.{checkpoint_at, Recovers, new_virtual_namespace_registry-checkpoint}
use tempura.VirtualNamespace.{VirtualNamespace}
use tempura.VirtualNamespace.Routing.{IsValid}
use tempura.Resolver.{Payload, Resolver, resolve, allocate}
use tempura.Resolver.Sticky.{IsUp, IsPinned, resolve_hit, resolve-cases}

-- a request for a workflow, or the completion of one, which deletes it from the cache
pub data Event : Type 0 where
  resolved : Payload → VirtualNamespaceRegistry → Event
  completed : Text → Event

abbrev pub workflow_of : Event → Text
workflow_of (resolved payload registry) = payload.workflow_id
workflow_of (completed workflow_id) = workflow_id

module _ (redis : Redis) ⦃murmur3 : Murmur3⦄ where
  open redis use {Db}

  unfoldable pub happen : Event → Resolver redis → Resolver redis
  unfolding resolve Mappings.delete
  happen (resolved payload registry) r = (resolve redis payload registry r).1
  happen (completed workflow_id) r = record r { cache = Mappings.delete redis workflow_id r.cache }

  unfoldable pub run : List Event → Resolver redis → Resolver redis
  unfolding happen
  run [] r = r
  run (e ∷ events) r = run events (happen e r)

  -- one tick of the checkpoint on the server of the cache
  abbrev pub checkpointed : SchemaJson → VirtualNamespaceRegistry → Resolver redis → Resolver redis
  checkpointed json vr r = record r {
    cache = record r.cache { client = checkpoint redis json vr r.cache.client };
  }

  -- the server goes on answering, and a key reads as before
  abbrev Keeps : Text → Resolver redis → Resolver redis → Type 0
  Keeps key r r' = IsUp redis r' × (redis.get r'.cache.client key ≡ redis.get r.cache.client key)

  allocate-Keeps :
      (workflow_id key : Text) (v : Option VirtualNamespace) (r : Resolver redis)
      → IsUp redis r
      → workflow_id ≢ key
      → Keeps key r (allocate redis workflow_id v r).1
  unfolding allocate Mappings.put
  allocate-Keeps workflow_id key none r up other = (up, refl)
  allocate-Keeps workflow_id key (some v) r up other = (
    redis.set_up r.cache.client workflow_id _ up,
    redis.get-set r.cache.client workflow_id key _ up
        ∙ ground (arith, text_eq_iff workflow_id key, other),
  )

  resolve-Keeps :
      (payload : Payload) (registry : VirtualNamespaceRegistry) (key : Text) (r : Resolver redis)
      → IsUp redis r
      → payload.workflow_id ≢ key
      → Keeps key r (resolve redis payload registry r).1
  resolve-Keeps payload registry key r up other = elim (resolve-cases redis payload registry r) [
    | inl (hit, held, named) ↦ rw (resolve_hit redis payload registry r hit held named) (up, refl)
    | inr (r', (client, _, falls)) ↦
        let (up', same) =
          allocate-Keeps payload.workflow_id key
            (Registry.resolve payload.virtual_namespace registry) r' (rw client up) other in
        rw falls (up', same ∙ ap (λ db. redis.get db key) client)
  ]

  happen-Keeps :
      (e : Event) (key : Text) (r : Resolver redis)
      → IsUp redis r
      → workflow_of e ≢ key
      → Keeps key r (happen e r)
  unfolding happen Mappings.delete
  happen-Keeps (resolved payload registry) key r up other =
      resolve-Keeps payload registry key r up other
  happen-Keeps (completed workflow_id) key r up other = (
    redis.del_up r.cache.client workflow_id up,
    redis.get-del r.cache.client workflow_id key up
        ∙ ground (arith, text_eq_iff workflow_id key, other),
  )

  run-Keeps :
      (events : List Event) (key : Text) (r : Resolver redis)
      → IsUp redis r
      → All (λ e. workflow_of e ≢ key) events
      → Keeps key r (run events r)
  unfolding run
  run-Keeps [] key r up others = (up, refl)
  run-Keeps (e ∷ events) key r up (other, others) =
      let (up', same) = happen-Keeps e key r up other in
      let (up'', rest) = run-Keeps events key (happen e r) up' others in (up'', rest ∙ same)

  module _ (json : SchemaJson) where
    checkpoint_lost :
        (vr : VirtualNamespaceRegistry) (db : Db)
        → json.marshal (collect_schema vr.namespaces []) ≡ none
        → checkpoint redis json vr db ≡ db
    unfolding checkpoint
    checkpoint_lost vr db lost = ground (arith, lost)

    checkpoint-IsUp :
        (vr : VirtualNamespaceRegistry) (db : Db)
        → redis.IsUp db
        → redis.IsUp (checkpoint redis json vr db)
    checkpoint-IsUp vr db up =
        elim (Option-cases (json.marshal (collect_schema vr.namespaces []))) [
          | inl lost ↦ rw (checkpoint_lost vr db lost) up
          | inr (t, written) ↦
              rw (checkpoint_at json redis db vr t written) (redis.set_up db registry_key t up)
        ]

    -- A checkpoint leaves a pinned workflow pinned, if that is not named as the checkpoint's key.
    pub checkpointed-IsPinned :
        (vr : VirtualNamespaceRegistry) (r : Resolver redis) (workflow_id ns : Text)
        → workflow_id ≢ registry_key
        → IsPinned redis r workflow_id ns
        → IsPinned redis (checkpointed json vr r) workflow_id ns
    checkpointed-IsPinned vr r workflow_id ns other pinned =
        let db = r.cache.client in
        record {
          up = checkpoint-IsUp vr db pinned.up;
          held = elim (Option-cases (json.marshal (collect_schema vr.namespaces []))) [
            | inl lost ↦ rw (checkpoint_lost vr db lost) pinned.held
            | inr (t, written) ↦ rw (checkpoint_at json redis db vr t written) (
                redis.get-set db registry_key workflow_id t pinned.up
                ∙ ground (arith, text_eq_iff registry_key workflow_id, other, pinned.held))
          ];
          named = pinned.named;
        }

    -- On one Redis server for the cache and the registry, if it answers, a checkpoint of valid
    -- virtual namespaces whose names fit the encoder and whose schema can be encoded is what the
    -- next start loads, after any resolutions and completions of workflows that are not named
    -- virtual_namespace_registry.
    pub run-Recovers :
        (events : List Event) (r : Resolver redis) (vr : VirtualNamespaceRegistry) (t name : Text)
        → IsUp redis r
        → All (λ e. workflow_of e ≢ registry_key) events
        → Unique vr.namespaces
        → ((n : Text) (v : VirtualNamespace) → Registry.resolve n vr ≡ some v → IsValid v)
        → json.Fits (collect_schema vr.namespaces [])
        → json.marshal (collect_schema vr.namespaces []) ≡ some t
        → Recovers (Registry.resolve name vr) (
            Registry.resolve name (
              new_virtual_namespace_registry json redis
                (run events (checkpointed json vr r)).cache.client))
    unfolding new_virtual_namespace_registry
    run-Recovers events r vr t name up others u valid fits written =
        let (_, same) =
          run-Keeps events registry_key (checkpointed json vr r)
            (checkpoint-IsUp vr r.cache.client up) others in
        rw same (
          new_virtual_namespace_registry-checkpoint json redis r.cache.client vr t name up u valid
            fits written)

    -- On one Redis server that answers, after a checkpoint whose schema can be encoded, Resolve
    -- for a workflow that is named virtual_namespace_registry returns the text of the checkpoint
    -- as a hit.
    pub resolve-registry_key :
        (payload : Payload) (vr registry : VirtualNamespaceRegistry) (r : Resolver redis) (t : Text)
        → IsUp redis r
        → payload.workflow_id ≡ registry_key
        → json.marshal (collect_schema vr.namespaces []) ≡ some t
        → (resolve redis payload registry (checkpointed json vr r)).0 ≡ (t, true)
    resolve-registry_key payload vr registry r t up same written =
        let db = r.cache.client in
        let held : redis.get (checkpoint redis json vr db) payload.workflow_id ≡ value t =
          rw (same, checkpoint_at json redis db vr t written)
            (redis.get-set db registry_key registry_key t up
              ∙ rw (text_eq_refl registry_key) refl) in
        ap (λ p. p.0)
          (resolve_hit redis payload registry (checkpointed json vr r) t held
            (json.marshal_full (collect_schema vr.namespaces []) t written))
