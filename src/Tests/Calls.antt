-- ===== src/Tests/Calls.antt =====
-- Two calls of Resolve for one workflow: both look up before either writes. In a second run the ring
-- grows between the choices of the two, and they return different slots.
use tempura.Common.{◌≡◌, ◌≢◌, refl, true, none, some, List, [], ◌∷◌, Text, codes, All}
use tempura.Common.GoMap
use tempura.Common.Keys.{string_key, text_eq}
use tempura.Redis.{missing}
use tempura.Ring.{new_consistent_hash, add_slot, get_slot, hash32, vnode_hash, slot_index}
use tempura.Ring.Sort.{sort_slice}
use tempura.Ring.Search.{sort_search}
use tempura.Ring.Hash.{itoa}
use tempura.VirtualNamespace.{VirtualNamespace, namespace_active}
use tempura.Resolver.{Resolver}
use tempura.Resolver.Races.{
  returned, Phase, begun, advance, step, Steps, stay, go, Chosen, Steps-Chosen,
}
use tempura.Resolver.Changing
use tempura.Resolver.Changing.{State, call, change, Accounted, Steps-Accounted}
use tempura.Tests.Base.{polynomial, server, hash31}
use tempura.Tests.Requests.{cold, order}
use tempura.Tests.Namespaces.{east}

abbrev west : Text
west = codes "west::10.0.0.2:7233"

abbrev small_shop : VirtualNamespace
small_shop = record {
  name = codes "shop";
  ring = add_slot east (new_consistent_hash 2);
  namespaces = (east, namespace_active) ∷ [];
}

order-east : get_slot small_shop.ring order ≡ east
unfolding add_slot get_slot hash31 hash32 new_consistent_hash GoMap.put GoMap.get slot_index
    sort_search sort_slice vnode_hash itoa tempura.Common.get_or
order-east = refl

order_named : get_slot small_shop.ring order ≢ []
order_named = rw order-east (λ e. cc e)

order_cold : server.get cold.cache.client order ≡ missing
unfolding GoMap.get
order_cold = refl

-- the state after a step of a call
abbrev after : Phase → Resolver server → Phase × Resolver server
after p r = advance server small_shop order p r

abbrev first : Phase × Resolver server
first = after begun cold

abbrev second : Phase × Resolver server
second = after begun first.1

-- the choice and the write of the first, then those of the second
abbrev picked : Phase × Resolver server
picked = after first.0 second.1

abbrev written : Phase × Resolver server
written = after picked.0 picked.1

abbrev picked_again : Phase × Resolver server
picked_again = after second.0 written.1

abbrev overwritten : Phase × Resolver server
overwritten = after picked_again.0 picked_again.1

both :
    Steps server small_shop order
      (begun ∷ begun ∷ [], cold)
      (written.0 ∷ overwritten.0 ∷ [], overwritten.1)
both = go (step [] (begun ∷ []) begun cold) (
    go (step (first.0 ∷ []) [] begun first.1) (
      go (step [] (second.0 ∷ []) first.0 second.1) (
        go (step [] (second.0 ∷ []) picked.0 picked.1) (
          go (step (written.0 ∷ []) [] second.0 written.1)
            (go (step (written.0 ∷ []) [] picked_again.0 picked_again.1) stay)))))

Steps-Chosen_example : All (Chosen server small_shop order) (written.0 ∷ overwritten.0 ∷ [])
unfolding GoMap.get
Steps-Chosen_example =
    Steps-Chosen server small_shop order order_named 2 (written.0 ∷ overwritten.0 ∷ []) cold
      overwritten.1 (refl, tt) order_cold both

-- the ring gets a slot after the first call has chosen
abbrev larger_shop : VirtualNamespace
larger_shop = record small_shop { ring = add_slot west small_shop.ring }

order-west : get_slot larger_shop.ring order ≡ west
unfolding add_slot get_slot hash31 hash32 new_consistent_hash GoMap.put GoMap.get slot_index
    sort_search sort_slice vnode_hash itoa tempura.Common.get_or
order-west = refl

abbrev later : Phase → Resolver server → Phase × Resolver server
later p r = advance server larger_shop order p r

abbrev late_pick : Phase × Resolver server
late_pick = later second.0 picked.1

abbrev early_write : Phase × Resolver server
early_write = later picked.0 late_pick.1

abbrev late_write : Phase × Resolver server
late_write = later late_pick.0 early_write.1

abbrev grown : State server order
grown = record {
  phases = early_write.0 ∷ late_write.0 ∷ [];
  resolver = late_write.1;
  present = larger_shop;
  past = small_shop ∷ [];
}

around_growth :
    Changing.Steps server order
      (record { phases = begun ∷ begun ∷ []; resolver = cold; present = small_shop; past = [] })
      grown
around_growth = Changing.go (call [] (begun ∷ []) begun cold small_shop []) (
    Changing.go (call (first.0 ∷ []) [] begun first.1 small_shop []) (
      Changing.go (call [] (second.0 ∷ []) first.0 second.1 small_shop []) (
        Changing.go (change _ larger_shop) (
          Changing.go (call (picked.0 ∷ []) [] second.0 picked.1 larger_shop (small_shop ∷ [])) (
            Changing.go
              (call [] (late_pick.0 ∷ []) picked.0 late_pick.1 larger_shop (small_shop ∷ []))
              (Changing.go
                (call (early_write.0 ∷ []) [] late_pick.0 early_write.1 larger_shop
                  (small_shop ∷ []))
                Changing.stay))))))

-- the two calls are sent to different slots
apart :
    (early_write.0 ≡ returned (get_slot small_shop.ring order))
    × (late_write.0 ≡ returned (get_slot larger_shop.ring order))
unfolding advance text_eq tempura.Mappings.get GoMap.get
apart = (refl, refl)

Steps-Accounted_example : Accounted server order grown
unfolding GoMap.get
Steps-Accounted_example =
    Steps-Accounted server order 2 cold small_shop grown (refl, tt) order_cold around_growth
