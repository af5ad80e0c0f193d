-- ===== src/Admin.antt =====
-- apis.go: the handlers of the admin server. encoding/json's decoder and the query parser of
-- net/url are parameters; a panic in a handler ends the connection, and net/http goes on.
pub mod Effects
pub mod Session
use tempura.Common.{
  ℕ, ◌||◌, not, Bool, true, false, Option, none, some, List, [], ◌∷◌, ◌++◌, Bytes, Text, codes,
  if◌then◌else◌,
}
use tempura.Common.GoMap.{GoMap}
use tempura.Common.Keys.{text_eq}
use tempura.Common.Result.{Result, ok, err}
use tempura.Common.Run.{Run, returned, panicked}
use tempura.Ring.Hash.{Murmur3}
use tempura.Namespace.{Namespace, build_physical_namespace}
use tempura.VirtualNamespace.{
  VirtualNamespace, NamespaceStatus, new_virtual_namespace, add, remove,
  get_all_namespaces_with_status,
}
use tempura.Registry
use tempura.Registry.{VirtualNamespaceRegistry}

pub record CreateVirtualNamespaceRequest : Type 0 where
  pub name : Text

pub record ManagePhysicalNamespaceRequest : Type 0 where
  pub virtual_namespace : Text
  pub physical_namespace : Text
  pub cluster_address : Text

-- json.NewDecoder(r.Body).Decode(&req); `err` holds err.Error()
pub record Json : Type 0 where
  pub decode_create : Bytes → Result Text CreateVirtualNamespaceRequest
  pub decode_manage : Bytes → Result Text ManagePhysicalNamespaceRequest

-- `name` is r.URL.Query().Get("name")
pub record AdminRequest : Type 0 where
  pub method : Text
  pub name : Text
  pub body : Bytes

-- a text, or the JSON object with the fields "name" and "physical_namespaces"
pub data Content : Type 0 where
  message : Text → Content
  listing : Text → GoMap Text NamespaceStatus → Content

pub data Served : Type 0 where
  replied : ℕ → Content → VirtualNamespaceRegistry → Served
  aborted : VirtualNamespaceRegistry → Served

-- http.Error
unfoldable pub http_error : Text → ℕ → VirtualNamespaceRegistry → Served
http_error error code registry = replied code (message (error ++ (10 ∷ []))) registry

unfoldable pub create_virtual : ⦃json : Json⦄ → AdminRequest → VirtualNamespaceRegistry → Served
unfolding http_error
create_virtual ⦃json⦄ r registry =
    if not (text_eq r.method (codes "POST"))
    then http_error (codes "Method not allowed") 405 registry
    else elim (json.decode_create r.body) [
      | err e ↦ http_error e 400 registry
      | ok req ↦
          if text_eq req.name []
          then http_error (codes "name is required") 400 registry
          else elim (Registry.resolve req.name registry) [
            | some v ↦ http_error (codes "virtual namespace already exists") 409 registry
            | none ↦
                replied 201
                  (message (
                    codes "Virtual namespace '"
                    ++ (req.name ++ (codes "' created successfully" ++ (10 ∷ [])))))
                  (Registry.register (new_virtual_namespace req.name) registry)
          ]
    ]

unfoldable pub incomplete : ManagePhysicalNamespaceRequest → Bool
incomplete req =
    text_eq req.virtual_namespace []
    || (text_eq req.physical_namespace [] || text_eq req.cluster_address [])

-- &Namespace{name: formattedName}
unfoldable pub formatted : ManagePhysicalNamespaceRequest → Namespace
formatted req = record {
  cluster = none;
  name = build_physical_namespace req.physical_namespace req.cluster_address;
}

-- what add and remove share: the checks, and the virtual namespace that the request names
unfoldable pub manage_physical :
    ⦃json : Json⦄
    → (ManagePhysicalNamespaceRequest → VirtualNamespace → Served)
    → AdminRequest
    → VirtualNamespaceRegistry
    → Served
unfolding http_error incomplete
manage_physical ⦃json⦄ apply r registry =
    if not (text_eq r.method (codes "POST"))
    then http_error (codes "Method not allowed") 405 registry
    else elim (json.decode_manage r.body) [
      | err e ↦ http_error e 400 registry
      | ok req ↦
          if incomplete req
          then http_error
              (codes "virtual_namespace, physical_namespace, and cluster_address are required") 400
              registry
          else elim (Registry.resolve req.virtual_namespace registry) [
            | none ↦ http_error (codes "virtual namespace not found") 404 registry
            | some v ↦ apply req v
          ]
    ]

unfoldable pub done_message : ManagePhysicalNamespaceRequest → Text → Content
done_message req what = message (
    codes "Physical namespace '"
    ++ (req.physical_namespace ++ (what ++ (req.virtual_namespace ++ (codes "'" ++ (10 ∷ []))))))

unfoldable pub add_physical :
    ⦃murmur3 : Murmur3⦄ ⦃json : Json⦄ → AdminRequest → VirtualNamespaceRegistry → Served
unfolding manage_physical done_message formatted
add_physical r registry =
    manage_physical
      (λ req v.
        replied 200 (done_message req (codes "' added to virtual namespace '"))
          (Registry.update req.virtual_namespace (add (formatted req) v) registry))
      r registry

-- the reply to a Remove that returned; a panic leaves the object as it was at that moment
unfoldable pub removed :
    ManagePhysicalNamespaceRequest → Run VirtualNamespace → VirtualNamespaceRegistry → Served
removed req (returned v) registry =
    replied 200 (done_message req (codes "' removed from virtual namespace '"))
      (Registry.update req.virtual_namespace v registry)
removed req (panicked v) registry = aborted (Registry.update req.virtual_namespace v registry)

unfoldable pub remove_physical :
    ⦃murmur3 : Murmur3⦄ ⦃json : Json⦄ → AdminRequest → VirtualNamespaceRegistry → Served
unfolding manage_physical removed formatted
remove_physical r registry =
    manage_physical (λ req v. removed req (remove (formatted req) v) registry) r registry

unfoldable pub get_virtual : AdminRequest → VirtualNamespaceRegistry → Served
unfolding http_error
get_virtual r registry =
    if not (text_eq r.method (codes "GET"))
    then http_error (codes "Method not allowed") 405 registry
    else if text_eq r.name []
    then http_error (codes "name query parameter is required") 400 registry
    else elim (Registry.resolve r.name registry) [
      | none ↦ http_error (codes "virtual namespace not found") 404 registry
      | some v ↦ replied 200 (listing r.name (get_all_namespaces_with_status v)) registry
    ]

-- the patterns that the handlers are registered under
pub data Endpoint : Type 0 where
  virtual_create physical_add physical_remove virtual_get : Endpoint

abbrev pub pattern : Endpoint → Text
pattern virtual_create = codes "/namespace/virtual/create"
pattern physical_add = codes "/namespace/physical/add"
pattern physical_remove = codes "/namespace/physical/remove"
pattern virtual_get = codes "/namespace/virtual/get"

unfoldable pub serve_admin :
    ⦃murmur3 : Murmur3⦄ ⦃json : Json⦄ → Endpoint → AdminRequest → VirtualNamespaceRegistry → Served
unfolding create_virtual add_physical remove_physical get_virtual
serve_admin virtual_create r registry = create_virtual r registry
serve_admin physical_add r registry = add_physical r registry
serve_admin physical_remove r registry = remove_physical r registry
serve_admin virtual_get r registry = get_virtual r registry
