-- ===== src/Tests/Admins.antt =====
-- Two requests to the admin server: a virtual namespace is created, and a physical one added.
use tempura.Common.{◌≡◌, refl, some, [], ◌∷◌, Text, codes, ◌⊎◌, length}
use tempura.Common.GoMap
use tempura.Common.Keys.{string_key, text_eq}
use tempura.Common.Result.{ok}
use tempura.Ring.{get_slot}
use tempura.VirtualNamespace.{VirtualNamespace, new_virtual_namespace, namespace_active, add}
use tempura.Registry
use tempura.Registry.{VirtualNamespaceRegistry}
use tempura.Admin.{
  Json, AdminRequest, ManagePhysicalNamespaceRequest, formatted, create_virtual, add_physical,
  serve_admin, virtual_create, physical_add, manage_physical, incomplete,
}
use tempura.Admin.Effects.{AllValid, LeavesValid}
use tempura.Admin.Session.{Reachable, start, step, serve_admin-AllValid, Reachable-routes}
use tempura.Tests.Base.{polynomial}

abbrev manage_request : ManagePhysicalNamespaceRequest
manage_request = record {
  virtual_namespace = codes "shop";
  physical_namespace = codes "east";
  cluster_address = codes "10.0.0.1:7233";
}

-- the body of a create request is the name; that of a manage request is not read
instance abbrev plain_json : Json
plain_json = record {
  decode_create = λ b. ok (record { name = b });
  decode_manage = λ b. ok manage_request;
}

abbrev post : Text → AdminRequest
post body = record { method = codes "POST"; name = []; body = body }

abbrev empty_registry : VirtualNamespaceRegistry
empty_registry = record { namespaces = [] }

abbrev with_shop : VirtualNamespaceRegistry
with_shop = record { namespaces = (codes "shop", new_virtual_namespace (codes "shop")) ∷ [] }

abbrev shop : VirtualNamespace
shop = add (formatted manage_request) (new_virtual_namespace (codes "shop"))

abbrev with_east : VirtualNamespaceRegistry
with_east = record { namespaces = (codes "shop", shop) ∷ [] }

empty_registry-AllValid : AllValid empty_registry
unfolding Registry.resolve GoMap.get
empty_registry-AllValid name v known = cc known

serve_admin-AllValid_example :
    LeavesValid
      (post (codes "shop"))
      empty_registry
      (serve_admin virtual_create (post (codes "shop")) empty_registry)
serve_admin-AllValid_example =
    serve_admin-AllValid virtual_create (post (codes "shop")) empty_registry empty_registry-AllValid

shop-Reachable : Reachable with_shop
unfolding serve_admin create_virtual Registry.resolve Registry.register GoMap.get GoMap.put
    new_virtual_namespace text_eq
shop-Reachable = step virtual_create (post (codes "shop")) 201 _ start refl

east-Reachable : Reachable with_east
unfolding serve_admin add_physical manage_physical incomplete Registry.resolve Registry.update
    GoMap.get GoMap.put text_eq
east-Reachable = step physical_add (post []) 200 _ shop-Reachable refl

shop_known : Registry.resolve (codes "shop") with_east ≡ some shop
unfolding Registry.resolve GoMap.get text_eq
shop_known = refl

Reachable-routes_example :
    ((length shop.ring.ring ≡ 0) × (get_slot shop.ring (codes "order-17") ≡ []))
    ⊎ (GoMap.get shop.namespaces (get_slot shop.ring (codes "order-17")) ≡ some namespace_active)
Reachable-routes_example =
    Reachable-routes with_east (codes "shop") (codes "order-17") shop east-Reachable shop_known
