-- ===== src/Tests/Namespaces.antt =====
-- The virtual namespaces, and the texts that stand for physical ones, at concrete inputs.
use tempura.Common.{◌≡◌, ◌≢◌, refl, true, false, some, none, Text, codes}
use tempura.Common.GoMap
use tempura.Common.GoMap.{is_some}
use tempura.Common.Keys.{string_key, text_eq}
use tempura.Common.Run.{state}
use tempura.Common.Strings.{contains_text}
use tempura.Ring.{get_slot}
use tempura.Namespace.{Namespace, delim, build_physical_namespace, parse_physical_namespace}
use tempura.Namespace.Parse.{parse-build}
use tempura.VirtualNamespace.{
  VirtualNamespace, new_virtual_namespace, add, remove, namespace_active, namespace_cordoned,
  get_all_namespaces,
}
use tempura.VirtualNamespace.Statuses.{occurrences}
use tempura.VirtualNamespace.Routing.{
  IsValid, new_virtual_namespace-IsValid, add-IsValid, add-routes, remove-cordons,
}
use tempura.Tests.Base.{polynomial}

abbrev pub east : Text
east = codes "east::10.0.0.1:7233"

abbrev pub physical : Text → Namespace
physical name = record { cluster = none; name = name }

abbrev pub shop : VirtualNamespace
shop = add (physical east) (new_virtual_namespace (codes "shop"))

pub shop-IsValid : IsValid shop
shop-IsValid =
    add-IsValid (physical east) (new_virtual_namespace (codes "shop"))
      (new_virtual_namespace-IsValid (codes "shop"))

add-routes_example :
    GoMap.get shop.namespaces (get_slot shop.ring (codes "order-17")) ≡ some namespace_active
add-routes_example =
    add-routes (physical east) (new_virtual_namespace (codes "shop")) (codes "order-17")
      (new_virtual_namespace-IsValid (codes "shop"))

shop-knows : is_some (GoMap.get shop.namespaces east) ≡ true
unfolding add GoMap.put GoMap.get text_eq
shop-knows = refl

remove-cordons_example :
    (GoMap.get (state (remove (physical east) shop)).namespaces east ≡ some namespace_cordoned)
    × (occurrences (get_all_namespaces (state (remove (physical east) shop))) east ≡ 1)
    × (get_slot (state (remove (physical east) shop)).ring (codes "order-17") ≢ east)
remove-cordons_example =
    remove-cordons (physical east) shop (codes "order-17") shop-IsValid (λ e. cc e) shop-knows

plain : contains_text (codes "east:") delim ≡ false
unfolding contains_text
plain = refl

whole : contains_text (codes "10.0.0.1:7233") delim ≡ false
unfolding contains_text
whole = refl

parse-build_example :
    parse_physical_namespace (build_physical_namespace (codes "east") (codes "10.0.0.1:7233"))
    ≡ some (record { name = codes "east"; address = codes "10.0.0.1:7233" })
parse-build_example = parse-build (codes "east") (codes "10.0.0.1:7233") plain whole
