-- ===== src/Admin/Effects.antt =====
-- apis.go: what the admin handlers do to the registry, and what they leave alone.
use tempura.Common.{
  ℕ, ◌≤◌, ◌≡◌, refl, true, false, Option, none, some, arith, Text, codes, ◌⊎◌, inl, inr, Bool-cases,
  length,
}
use tempura.Common.GoMap
use tempura.Common.GoMap.{GoMap}
use tempura.Common.Keys.{text_eq, text_eq_iff, string_key}
use tempura.Common.Result.{Result, ok, err}
use tempura.Common.Run.{Run, returned, panicked}
use tempura.Ring.Hash.{Murmur3}
use tempura.VirtualNamespace.{VirtualNamespace, add, remove}
use tempura.VirtualNamespace.Routing.{IsValid, add-IsValid, remove-IsValid, remove-panics}
use tempura.Registry
use tempura.Registry.{VirtualNamespaceRegistry}
use tempura.Admin.{
  Json, AdminRequest, ManagePhysicalNamespaceRequest, Content, Served, replied, aborted, incomplete,
  formatted, manage_physical, done_message, add_physical, removed, remove_physical, http_error,
}

module _ ⦃murmur3 : Murmur3⦄ where
  -- every registered virtual namespace keeps its invariant
  abbrev pub AllValid : VirtualNamespaceRegistry → Type 0
  AllValid registry =
      (name : Text) (v : VirtualNamespace) → Registry.resolve name registry ≡ some v → IsValid v

  pub update-AllValid :
      (name : Text) (v : VirtualNamespace) (registry : VirtualNamespaceRegistry)
      → IsValid v
      → AllValid registry
      → AllValid (Registry.update name v registry)
  unfolding Registry.update Registry.resolve
  update-AllValid name v registry valid all k w held = elim (Bool-cases (text_eq name k)) [
    | inl same ↦
        let e : v ≡ w = ground (arith, held, same, GoMap.get-put name k v registry.namespaces) in
        rw (← e) valid
    | inr other ↦ all k w (ground (arith, held, other, GoMap.get-put name k v registry.namespaces))
  ]

-- the reply refuses the request, and leaves the registry as it was
abbrev pub Refuses : VirtualNamespaceRegistry → Served → Type 0
Refuses registry served =
    (code : ℕ) × (error : Content) × (400 ≤ code) × (served ≡ replied code error registry)

module _ ⦃json : Json⦄ (r : AdminRequest) (registry : VirtualNamespaceRegistry) where
  abbrev Applies : (ManagePhysicalNamespaceRequest → VirtualNamespace → Served) → Served → Type 0
  Applies apply served =
      (req : ManagePhysicalNamespaceRequest) × (v : VirtualNamespace) × (Registry.resolve
          req.virtual_namespace registry
        ≡ some v)
      × (served ≡ apply req v)

  manage_known :
      (apply : ManagePhysicalNamespaceRequest → VirtualNamespace → Served)
      (req : ManagePhysicalNamespaceRequest)
      → text_eq r.method (codes "POST") ≡ true
      → json.decode_manage r.body ≡ ok req
      → incomplete req ≡ false
      → (found : Option VirtualNamespace) → Registry.resolve req.virtual_namespace registry ≡ found
      → Refuses registry (manage_physical apply r registry)
        ⊎ Applies apply (manage_physical apply r registry)
  unfolding manage_physical http_error
  manage_known apply req post decoded full none e =
      rw (post, decoded, full, e) (inl (404, _, omega arith, refl))
  manage_known apply req post decoded full (some v) e =
      rw (post, decoded, full, e) (inr (req, v, e, refl))

  manage_decoded :
      (apply : ManagePhysicalNamespaceRequest → VirtualNamespace → Served)
      → text_eq r.method (codes "POST") ≡ true
      → (decoded : Result Text ManagePhysicalNamespaceRequest) → json.decode_manage r.body ≡ decoded
      → Refuses registry (manage_physical apply r registry)
        ⊎ Applies apply (manage_physical apply r registry)
  unfolding manage_physical http_error
  manage_decoded apply post (err e) at = rw (post, at) (inl (400, _, omega arith, refl))
  manage_decoded apply post (ok req) at = elim (Bool-cases (incomplete req)) [
    | inl short ↦ rw (post, at, short) (inl (400, _, omega arith, refl))
    | inr full ↦
        manage_known apply req post at full (Registry.resolve req.virtual_namespace registry) refl
  ]

  -- A request to add or to remove is refused, or it is applied to the virtual namespace it names.
  manage-cases :
      (apply : ManagePhysicalNamespaceRequest → VirtualNamespace → Served)
      → Refuses registry (manage_physical apply r registry)
        ⊎ Applies apply (manage_physical apply r registry)
  unfolding manage_physical http_error
  manage-cases apply = elim (Bool-cases (text_eq r.method (codes "POST"))) [
    | inl post ↦ manage_decoded apply post (json.decode_manage r.body) refl
    | inr other ↦ inl (rw other (405, _, omega arith, refl))
  ]

module _ ⦃murmur3 : Murmur3⦄ ⦃json : Json⦄ (r : AdminRequest)
    (registry : VirtualNamespaceRegistry) where
  -- A request to add a physical namespace is refused with a code of 400 or more and the registry
  -- as it was; or it is answered with 200, the virtual namespace that it names is known, and
  -- afterwards that one is what Add made of it.
  pub add_physical-cases :
      Refuses registry (add_physical r registry)
      ⊎ ((req : ManagePhysicalNamespaceRequest) × (v : VirtualNamespace)
          × (registry' : VirtualNamespaceRegistry) × (add_physical r registry
              ≡ replied 200 (done_message req (codes "' added to virtual namespace '")) registry')
          × (Registry.resolve req.virtual_namespace registry ≡ some v)
          × (Registry.resolve req.virtual_namespace registry' ≡ some (add (formatted req) v)))
  unfolding add_physical Registry.resolve Registry.update
  add_physical-cases = elim (manage-cases r registry _) [
    | inl refused ↦ inl refused
    | inr (req, v, known, applied) ↦ inr (
      req,
      v,
      _,
      applied,
      known,
      ground (
        arith,
        GoMap.get-put req.virtual_namespace req.virtual_namespace (add (formatted req) v)
            registry.namespaces,
        text_eq_iff req.virtual_namespace req.virtual_namespace,
      ),
    )
  ]

  -- the registry that a handler leaves
  abbrev pub LeavesValid : Served → Type 0
  LeavesValid (replied code content registry') = AllValid registry'
  LeavesValid (aborted registry') = Unit {0}

  pub refused-LeavesValid :
      (served : Served) → AllValid registry → Refuses registry served → LeavesValid served
  refused-LeavesValid served all (code, error, high, e) = rw e all

  pub add_physical-AllValid : AllValid registry → LeavesValid (add_physical r registry)
  unfolding add_physical
  add_physical-AllValid all = elim (manage-cases r registry _) [
    | inl refused ↦ refused-LeavesValid _ all refused
    | inr (req, v, known, applied) ↦ rw applied (
        update-AllValid req.virtual_namespace (add (formatted req) v) registry
          (add-IsValid (formatted req) v (all req.virtual_namespace v known)) all)
  ]

  removed-AllValid :
      (req : ManagePhysicalNamespaceRequest) (v : VirtualNamespace) (run : Run VirtualNamespace)
      → IsValid v
      → AllValid registry
      → remove (formatted req) v ≡ run
      → LeavesValid (removed req run registry)
  unfolding removed
  removed-AllValid req v (panicked left) valid all e = tt
  removed-AllValid req v (returned left) valid all e =
      let room : 50 ≤ length v.ring.ring =
        ground (arith, rw e at (remove-panics (formatted req) v valid)) in
      update-AllValid req.virtual_namespace left registry
        (rw e at (remove-IsValid (formatted req) v room valid)) all

  pub remove_physical-AllValid : AllValid registry → LeavesValid (remove_physical r registry)
  unfolding remove_physical
  remove_physical-AllValid all = elim (manage-cases r registry _) [
    | inl refused ↦ refused-LeavesValid _ all refused
    | inr (req, v, known, applied) ↦ rw applied (
        removed-AllValid req v (remove (formatted req) v) (all req.virtual_namespace v known) all
          refl)
  ]
