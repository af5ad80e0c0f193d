-- ===== src/Admin/Session.antt =====
-- apis.go: the registry as a state machine whose steps are the replies of the admin server.
use tempura.Common.{
  ℕ, ◌≡◌, refl, true, false, Option, none, some, [], arith, Text, codes, ◌⊎◌, inl, inr, Bool-cases,
  length,
}
use tempura.Common.GoMap
use tempura.Common.Keys.{text_eq, string_key}
use tempura.Common.Result.{Result, ok, err}
use tempura.Ring.Hash.{Murmur3}
use tempura.Ring.{get_slot}
use tempura.VirtualNamespace.{VirtualNamespace, new_virtual_namespace, namespace_active}
use tempura.VirtualNamespace.Routing.{new_virtual_namespace-IsValid, get_slot-cases}
use tempura.Registry
use tempura.Registry.{VirtualNamespaceRegistry}
use tempura.Admin.{
  Json, AdminRequest, CreateVirtualNamespaceRequest, Content, Served, replied, aborted, http_error,
  create_virtual, get_virtual, Endpoint, virtual_create, physical_add, physical_remove, virtual_get,
  serve_admin,
}
use tempura.Admin.Effects.{
  AllValid, update-AllValid, Refuses, LeavesValid, refused-LeavesValid, add_physical-AllValid,
  remove_physical-AllValid,
}

module _ ⦃json : Json⦄ (r : AdminRequest) (registry : VirtualNamespaceRegistry) where
  abbrev pub Creates : Served → Type 0
  Creates served =
      (req : CreateVirtualNamespaceRequest) × (text : Content) × (json.decode_create r.body
        ≡ ok req)
      × (Registry.resolve req.name registry ≡ none)
      × (served ≡ replied 201 text (Registry.register (new_virtual_namespace req.name) registry))

  create_unknown :
      (req : CreateVirtualNamespaceRequest)
      → text_eq r.method (codes "POST") ≡ true
      → json.decode_create r.body ≡ ok req
      → text_eq req.name [] ≡ false
      → (found : Option VirtualNamespace) → Registry.resolve req.name registry ≡ found
      → Refuses registry (create_virtual r registry) ⊎ Creates (create_virtual r registry)
  unfolding create_virtual http_error
  create_unknown req post decoded named (some v) e =
      rw (post, decoded, named, e) (inl (409, _, omega arith, refl))
  create_unknown req post decoded named none e =
      rw (post, decoded, named, e) (inr (req, _, refl, e, refl))

  create_decoded :
      text_eq r.method (codes "POST") ≡ true
      → (decoded : Result Text CreateVirtualNamespaceRequest) → json.decode_create r.body ≡ decoded
      → Refuses registry (create_virtual r registry) ⊎ Creates (create_virtual r registry)
  unfolding create_virtual http_error
  create_decoded post (err e) at = rw (post, at) (inl (400, _, omega arith, refl))
  create_decoded post (ok req) at = elim (Bool-cases (text_eq req.name [])) [
    | inl blank ↦ rw (post, at, blank) (inl (400, _, omega arith, refl))
    | inr named ↦ create_unknown req post at named (Registry.resolve req.name registry) refl
  ]

  -- A request to create is refused with the registry as it was; or the name was free, and a virtual
  -- namespace without physical ones is registered under it.
  pub create_virtual-cases :
      Refuses registry (create_virtual r registry) ⊎ Creates (create_virtual r registry)
  unfolding create_virtual http_error
  create_virtual-cases = elim (Bool-cases (text_eq r.method (codes "POST"))) [
    | inl post ↦ create_decoded post (json.decode_create r.body) refl
    | inr other ↦ inl (rw other (405, _, omega arith, refl))
  ]

  get_virtual_keeps :
      (code : ℕ) (content : Content) (registry' : VirtualNamespaceRegistry)
      → get_virtual r registry ≡ replied code content registry'
      → registry' ≡ registry
  unfolding get_virtual http_error
  get_virtual_keeps code content registry' e = ground (arith, e)

module _ ⦃murmur3 : Murmur3⦄ ⦃json : Json⦄ where
  create_virtual-AllValid :
      (r : AdminRequest) (registry : VirtualNamespaceRegistry)
      → AllValid registry
      → LeavesValid r registry (create_virtual r registry)
  unfolding Registry.register Registry.update new_virtual_namespace
  create_virtual-AllValid r registry all = elim (create_virtual-cases r registry) [
    | inl refused ↦ refused-LeavesValid r registry _ all refused
    | inr (req, text, decoded, free, created) ↦ rw created (
        update-AllValid req.name (new_virtual_namespace req.name) registry
          (new_virtual_namespace-IsValid req.name) all)
  ]

  get_virtual-AllValid :
      (r : AdminRequest) (registry : VirtualNamespaceRegistry) (served : Served)
      → AllValid registry
      → get_virtual r registry ≡ served
      → LeavesValid r registry served
  get_virtual-AllValid r registry (replied code content registry') all e =
      rw (get_virtual_keeps r registry code content registry' e) all
  get_virtual-AllValid r registry (aborted registry') all e = tt

  -- If every virtual namespace of a registry is valid, then so is every one of the registry with
  -- which an admin handler replies, whatever the endpoint and the request.
  pub serve_admin-AllValid :
      (endpoint : Endpoint) (r : AdminRequest) (registry : VirtualNamespaceRegistry)
      → AllValid registry
      → LeavesValid r registry (serve_admin endpoint r registry)
  unfolding serve_admin
  serve_admin-AllValid virtual_create r registry all = create_virtual-AllValid r registry all
  serve_admin-AllValid physical_add r registry all = add_physical-AllValid r registry all
  serve_admin-AllValid physical_remove r registry all = remove_physical-AllValid r registry all
  serve_admin-AllValid virtual_get r registry all = get_virtual-AllValid r registry _ all refl

  -- A registry that a server which started with none can reach.
  pub data Reachable : VirtualNamespaceRegistry → Type 0 where
    start : Reachable (record { namespaces = [] })
    step :
        {registry registry' : VirtualNamespaceRegistry} (endpoint : Endpoint) (r : AdminRequest)
        (code : ℕ) (content : Content)
        → Reachable registry
        → serve_admin endpoint r registry ≡ replied code content registry'
        → Reachable registry'

  Reachable-AllValid :
      {registry : VirtualNamespaceRegistry} → Reachable registry → AllValid registry
  unfolding Registry.resolve GoMap.get
  Reachable-AllValid start = λ name v known. cc known
  Reachable-AllValid (step {registry = before} endpoint r code content reached served) =
      rw served at (serve_admin-AllValid endpoint r before (Reachable-AllValid reached))

  -- However a registry came about from an empty one through replies of the admin server, a virtual
  -- namespace in it sends each key to one of its active physical namespaces, or to none where its
  -- ring is empty.
  pub Reachable-routes :
      (registry : VirtualNamespaceRegistry) (name key : Text) (v : VirtualNamespace)
      → Reachable registry
      → Registry.resolve name registry ≡ some v
      → ((length v.ring.ring ≡ 0) × (get_slot v.ring key ≡ []))
        ⊎ (GoMap.get v.namespaces (get_slot v.ring key) ≡ some namespace_active)
  Reachable-routes registry name key v reached known =
      get_slot-cases v key (Reachable-AllValid reached name v known)
