-- ===== src/Resolver/Guarantees.antt =====
-- resolver.go: Resolve over any number of calls, and the first call for a workflow.
use tempura.Common.{ap, ◌≡◌, ◌≢◌, refl, true, false, some, List, [], ◌∷◌, Text, inl, ◌⊎◌, length}
use tempura.Common.Keys.{string_key}
use tempura.Common.GoMap
use tempura.Redis.{Redis, missing}
use tempura.Ring.Hash.{Murmur3}
use tempura.Registry
use tempura.Registry.{VirtualNamespaceRegistry}
use tempura.VirtualNamespace.{VirtualNamespace, namespace_active}
use tempura.VirtualNamespace.Routing.{IsValid, get_slot-cases}
use tempura.Resolver.{Payload, Resolver, resolve, allocate}
use tempura.Resolver.Sticky.{IsUp, IsPinned, resolve_hit, resolve_miss, resolve-pins, resolve-keeps}

module _ (redis : Redis) ⦃murmur3 : Murmur3⦄ where
  -- calls of Resolve one after the other, each under the registry of its moment
  unfoldable pub resolve_all :
      List (Payload × VirtualNamespaceRegistry) → Resolver redis → Resolver redis
  resolve_all [] r = r
  resolve_all ((payload, registry) ∷ calls) r =
      resolve_all calls (resolve redis payload registry r).1

  pub resolve_all-keeps :
      (calls : List (Payload × VirtualNamespaceRegistry)) (r : Resolver redis)
      (workflow_id ns : Text)
      → IsPinned redis r workflow_id ns
      → IsPinned redis (resolve_all calls r) workflow_id ns
  unfolding resolve_all
  resolve_all-keeps [] r workflow_id ns pinned = pinned
  resolve_all-keeps ((payload, registry) ∷ calls) r workflow_id ns pinned =
      resolve_all-keeps calls _ workflow_id ns
        (resolve-keeps redis payload registry r workflow_id ns pinned)

  -- While the Redis server answers, what Resolve returned for a workflow id, if not the empty
  -- text, it returns as a hit whenever it is asked for that id again, after any calls with any
  -- payloads and under any registries, the changed virtual namespace of the payload included.
  pub resolve_sticky :
      (first again : Payload) (registry later : VirtualNamespaceRegistry) (r : Resolver redis)
      (calls : List (Payload × VirtualNamespaceRegistry))
      → IsUp redis r
      → (resolve redis first registry r).0.0 ≢ []
      → again.workflow_id ≡ first.workflow_id
      → (resolve redis again later (resolve_all calls (resolve redis first registry r).1)).0
        ≡ ((resolve redis first registry r).0.0, true)
  resolve_sticky first again registry later r calls up named same =
      let ns = (resolve redis first registry r).0.0 in
      let after = resolve_all calls (resolve redis first registry r).1 in
      let pinned : IsPinned redis after first.workflow_id ns =
        resolve_all-keeps calls (resolve redis first registry r).1 first.workflow_id ns
          (resolve-pins redis first registry r up named) in
      ap (λ p. p.0) (resolve_hit redis again later after ns (rw same pinned.held) pinned.named)

  -- A workflow that the cache does not hold, in a valid virtual namespace that is registered, is
  -- sent to an active physical namespace, or to none where the ring is empty; and it is not
  -- counted as a hit.
  pub resolve_new-active :
      (payload : Payload) (registry : VirtualNamespaceRegistry) (r : Resolver redis)
      (v : VirtualNamespace)
      → redis.get r.cache.client payload.workflow_id ≡ missing
      → Registry.resolve payload.virtual_namespace registry ≡ some v
      → IsValid v
      → ((resolve redis payload registry r).0.1 ≡ false)
        × (((length v.ring.ring ≡ 0) × ((resolve redis payload registry r).0.0 ≡ []))
            ⊎ (GoMap.get v.namespaces (resolve redis payload registry r).0.0
                ≡ some namespace_active))
  unfolding allocate
  resolve_new-active payload registry r v new known valid =
      rw (resolve_miss redis payload registry r (inl new), known)
        (refl, get_slot-cases v payload.workflow_id valid)
