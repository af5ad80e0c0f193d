-- ===== src/Resolver/Sticky.antt =====
-- resolver.go: what one call of Resolve reads from the cache and leaves in it.
use tempura.Common.{
  ◌+◌, ◌≡◌, ◌≢◌, refl, true, false, Option, none, some, [], arith, Text, Bool-cases, inl, inr, ◌⊎◌,
}
use tempura.Common.Keys.{text_eq, text_eq_iff, string_key}
use tempura.Redis.{Redis, Reply, value, missing, failed}
use tempura.Mappings
use tempura.Mappings.{Mappings}
use tempura.Ring.Hash.{Murmur3}
use tempura.Ring.{get_slot}
use tempura.Registry
use tempura.Registry.{VirtualNamespaceRegistry}
use tempura.VirtualNamespace.{VirtualNamespace}
use tempura.Resolver.{Payload, Resolver, resolve, allocate}

module _ (redis : Redis) where
  abbrev pub IsUp : Resolver redis → Type 0
  IsUp r = redis.IsUp r.cache.client

  -- the cache of a server that answers holds `ns` for the workflow
  pub record IsPinned (r : Resolver redis) (workflow_id ns : Text) : Type 0 where
    pub up : IsUp r
    pub held : redis.get r.cache.client workflow_id ≡ value ns
    pub named : ns ≢ []

module _ (redis : Redis) ⦃murmur3 : Murmur3⦄ where
  -- A cached name is returned as it is, whatever virtual namespace the payload names, and nothing
  -- but the hit counter changes.
  pub resolve_hit :
      (payload : Payload) (registry : VirtualNamespaceRegistry) (r : Resolver redis) (ns : Text)
      → redis.get r.cache.client payload.workflow_id ≡ value ns
      → ns ≢ []
      → resolve redis payload registry r ≡ (
        (ns, true),
        record r { cache = record r.cache { cache_hit_count = r.cache.cache_hit_count + 1 } },
      )
  unfolding resolve Mappings.get
  resolve_hit payload registry r ns held named = rw held (ground (arith, text_eq_iff ns []))

  -- What a lookup does not hold is taken from the ring.
  pub resolve_miss :
      (payload : Payload) (registry : VirtualNamespaceRegistry) (r : Resolver redis)
      → (redis.get r.cache.client payload.workflow_id ≡ missing)
        ⊎ (redis.get r.cache.client payload.workflow_id ≡ failed)
      → resolve redis payload registry r
        ≡ allocate redis payload.workflow_id
            (Registry.resolve payload.virtual_namespace registry)
            (record r {
              cache = record r.cache { cache_miss_count = r.cache.cache_miss_count + 1 };
            })
  unfolding resolve Mappings.get text_eq
  resolve_miss payload registry r (inl e) = rw e
  resolve_miss payload registry r (inr e) = rw e

  -- An empty name in the cache counts as a hit there, and is allocated anew.
  resolve_blank :
      (payload : Payload) (registry : VirtualNamespaceRegistry) (r : Resolver redis) (ns : Text)
      → redis.get r.cache.client payload.workflow_id ≡ value ns
      → text_eq ns [] ≡ true
      → resolve redis payload registry r
        ≡ allocate redis payload.workflow_id
            (Registry.resolve payload.virtual_namespace registry)
            (record r { cache = record r.cache { cache_hit_count = r.cache.cache_hit_count + 1 } })
  unfolding resolve Mappings.get
  resolve_blank payload registry r ns e blank = rw (e, blank)

  allocate-pins :
      (key : Text) (v : Option VirtualNamespace) (r : Resolver redis)
      → IsUp redis r
      → (allocate redis key v r).0.0 ≢ []
      → IsPinned redis (allocate redis key v r).1 key (allocate redis key v r).0.0
  unfolding allocate Mappings.put
  allocate-pins key none r up named = absurd (named refl)
  allocate-pins key (some v) r up named = record {
    up = redis.set_up r.cache.client key (get_slot v.ring key) up;
    held =
        rw (redis.get-set r.cache.client key key (get_slot v.ring key) up)
          (ground (arith, text_eq_iff key key));
    named = named;
  }

  -- Either the cache has a name, or the ring decides, with the same store.
  abbrev Falls : Payload → VirtualNamespaceRegistry → Resolver redis → Resolver redis → Type 0
  Falls payload registry r r' =
      (r'.cache.client ≡ r.cache.client)
      × (r'.allocated ≡ r.allocated)
      × (resolve redis payload registry r
          ≡ allocate redis payload.workflow_id (Registry.resolve payload.virtual_namespace registry)
              r')

  pub resolve-cases :
      (payload : Payload) (registry : VirtualNamespaceRegistry) (r : Resolver redis)
      → ((ns : Text) × (redis.get r.cache.client payload.workflow_id ≡ value ns) × (ns ≢ []))
        ⊎ ((r' : Resolver redis) × Falls payload registry r r')
  resolve-cases payload registry r = by_reply (redis.get r.cache.client payload.workflow_id) refl
    where
      by_reply :
          (reply : Reply)
          → redis.get r.cache.client payload.workflow_id ≡ reply
          → ((ns : Text) × (redis.get r.cache.client payload.workflow_id ≡ value ns) × (ns ≢ []))
            ⊎ ((r' : Resolver redis) × Falls payload registry r r')
      by_reply missing e = inr (_, (refl, refl, resolve_miss payload registry r (inl e)))
      by_reply failed e = inr (_, (refl, refl, resolve_miss payload registry r (inr e)))
      by_reply (value ns) e = elim (Bool-cases (text_eq ns [])) [
        | inr named ↦ inl (ns, e, λ q. cc (named, (text_eq_iff ns []).1 q))
        | inl blank ↦ inr (_, (refl, refl, resolve_blank payload registry r ns e blank))
      ]

  pub resolve-pins :
      (payload : Payload) (registry : VirtualNamespaceRegistry) (r : Resolver redis)
      → IsUp redis r
      → (resolve redis payload registry r).0.0 ≢ []
      → IsPinned redis
          (resolve redis payload registry r).1
          payload.workflow_id
          (resolve redis payload registry r).0.0
  resolve-pins payload registry r up named = elim (resolve-cases payload registry r) [
    | inl (ns, held, ns_named) ↦
        rw (resolve_hit payload registry r ns held ns_named)
          (record { up = up; held = held; named = ns_named })
    | inr (r', (client, _, falls)) ↦
        rw falls (allocate-pins payload.workflow_id _ r' (rw client up) (rw falls at named))
  ]

  allocate-keeps :
      (key : Text) (v : Option VirtualNamespace) (r : Resolver redis) (workflow_id ns : Text)
      → key ≢ workflow_id
      → IsPinned redis r workflow_id ns
      → IsPinned redis (allocate redis key v r).1 workflow_id ns
  unfolding allocate Mappings.put
  allocate-keeps key none r workflow_id ns other pinned = pinned
  allocate-keeps key (some v) r workflow_id ns other pinned = record {
    up = redis.set_up r.cache.client key (get_slot v.ring key) pinned.up;
    held =
        rw (redis.get-set r.cache.client key workflow_id (get_slot v.ring key) pinned.up)
          (ground (arith, text_eq_iff key workflow_id, pinned.held));
    named = pinned.named;
  }

  resolve_other-keeps :
      (payload : Payload) (registry : VirtualNamespaceRegistry) (r : Resolver redis)
      (workflow_id ns : Text)
      → text_eq payload.workflow_id workflow_id ≡ false
      → IsPinned redis r workflow_id ns
      → IsPinned redis (resolve redis payload registry r).1 workflow_id ns
  resolve_other-keeps payload registry r workflow_id ns other pinned =
      elim (resolve-cases payload registry r) [
        | inl (hit, held, named) ↦
            rw (resolve_hit payload registry r hit held named)
              (record { up = pinned.up; held = pinned.held; named = pinned.named })
        | inr (r', (client, _, falls)) ↦ rw falls (
            allocate-keeps payload.workflow_id _ r' workflow_id ns
              (λ e. cc (other, (text_eq_iff payload.workflow_id workflow_id).1 e))
              (record {
                up = rw client pinned.up;
                held = rw client pinned.held;
                named = pinned.named;
              }))
      ]

  -- another resolution, of any payload under any registry, keeps what the cache holds
  pub resolve-keeps :
      (payload : Payload) (registry : VirtualNamespaceRegistry) (r : Resolver redis)
      (workflow_id ns : Text)
      → IsPinned redis r workflow_id ns
      → IsPinned redis (resolve redis payload registry r).1 workflow_id ns
  resolve-keeps payload registry r workflow_id ns pinned =
      elim (Bool-cases (text_eq payload.workflow_id workflow_id)) [
        | inl same ↦
            rw
              (resolve_hit payload registry r ns
                (rw ((text_eq_iff payload.workflow_id workflow_id).0 same) pinned.held)
                pinned.named)
              (record { up = pinned.up; held = pinned.held; named = pinned.named })
        | inr other ↦ resolve_other-keeps payload registry r workflow_id ns other pinned
      ]
