-- ===== src/Deployed/Registration.antt =====
-- functional_test_base.go, registerNamespaceWithTempura: a namespace of a test is created with the
-- admin API and its cluster is added to it. What the two requests answer is not looked at.
use tempura.Common.{◌≡◌, false, [], ◌++◌, Text, codes}
use tempura.Common.GoMap
use tempura.Common.Keys.{text_eq, string_key}
use tempura.Common.Result.{ok}
use tempura.Ring.Hash.{Murmur3}
use tempura.VirtualNamespace.{VirtualNamespace}
use tempura.Registry
use tempura.Registry.{VirtualNamespaceRegistry}
use tempura.Admin.{
  Json, AdminRequest, ManagePhysicalNamespaceRequest, Served, replied, aborted, create_virtual,
  serve_admin, virtual_create, physical_add,
}

-- the server's registry after a request, whether or not it was answered
unfoldable pub registry_after : Served → VirtualNamespaceRegistry
registry_after (replied code content registry) = registry
registry_after (aborted registry) = registry

unfoldable pub create_body : Text → Text
create_body ns_name = codes "{\"name\":\"" ++ (ns_name ++ codes "\"}")

unfoldable pub add_body : Text → Text → Text
add_body ns_name cluster_addr =
    codes "{\"virtual_namespace\":\""
    ++ (ns_name
        ++ (codes "\", \"physical_namespace\":\""
            ++ (ns_name ++ (codes "\", \"cluster_address\":\"" ++ (cluster_addr ++ codes "\"}")))))

-- http.Post
unfoldable pub posted : Text → AdminRequest
posted body = record { method = codes "POST"; name = []; body = body }

module _ ⦃murmur3 : Murmur3⦄ ⦃json : Json⦄ where
  unfoldable pub register_namespace_with_tempura :
      Text → Text → VirtualNamespaceRegistry → VirtualNamespaceRegistry
  unfolding registry_after create_body add_body posted serve_admin
  register_namespace_with_tempura ns_name cluster_addr registry =
      let created =
        registry_after (serve_admin virtual_create (posted (create_body ns_name)) registry) in
      registry_after (serve_admin physical_add (posted (add_body ns_name cluster_addr)) created)

  -- the request that the body of the second post stands for
  abbrev pub add_request : Text → Text → ManagePhysicalNamespaceRequest
  add_request ns_name cluster_addr = record {
    virtual_namespace = ns_name;
    physical_namespace = ns_name;
    cluster_address = cluster_addr;
  }

  module _ (ns_name cluster_addr : Text) (registry : VirtualNamespaceRegistry)
      (created : json.decode_create (create_body ns_name) ≡ ok (record { name = ns_name }))
      (named : text_eq ns_name [] ≡ false) where
    abbrev after_create : VirtualNamespaceRegistry
    after_create = registry_after (create_virtual (posted (create_body ns_name)) registry)
