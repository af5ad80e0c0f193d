-- ===== src/Startup.antt =====
-- main.go, with NewStickyProxy of proxy.go and NewConnPark of connpark.go: what the program is made
-- of when it starts, and how it ends. The reverse proxy and the HTTP/2 transport are calls of
-- libraries; the server of net/http is a parameter.
use tempura.Common.{ℕ, ◌++◌, Option, none, some, Text, codes}
use tempura.Redis.{Redis}
use tempura.Mappings.{new_mappings}
use tempura.Ring.Hash.{Murmur3, itoa}
use tempura.Registry.{VirtualNamespaceRegistry}
use tempura.Registry.Checkpoint.{SchemaJson, new_virtual_namespace_registry, registry_address}
use tempura.Resolver.{Resolver, new_resolver}

-- url.Parse, of which the Host field is used; `none` is an error
pub record Urls : Type 0 where
  pub parse_host : Text → Option Text

-- the transport is the parameter of ConnPark.antt
pub record ConnPark (redis : Redis) : Type 0 where
  pub resolver : Resolver redis
  pub registry : VirtualNamespaceRegistry

unfoldable pub new_conn_park :
    (redis : Redis) → Resolver redis → VirtualNamespaceRegistry → ConnPark redis
new_conn_park redis resolver registry = record { resolver = resolver; registry = registry }

-- `addr` is the server's; `default_host` is what the Director closes over
pub record StickyProxy (redis : Redis) : Type 0 where
  pub addr : Text
  pub default_host : Text
  pub resolver : Resolver redis
  pub conn_park : ConnPark redis

-- the server and what it is returned with
unfoldable pub assemble :
    (redis : Redis) → Text → Text → Resolver redis → ConnPark redis → StickyProxy redis
assemble redis listen_addr default_host resolver conn_park = record {
  addr = listen_addr;
  default_host = default_host;
  resolver = resolver;
  conn_park = conn_park;
}

-- `none` is the error of a default target that is no URL
unfoldable pub new_sticky_proxy :
    ⦃urls : Urls⦄ (redis : Redis)
    → Text
    → Text
    → Text
    → VirtualNamespaceRegistry
    → Option (StickyProxy redis)
unfolding new_conn_park new_resolver assemble
new_sticky_proxy ⦃urls⦄ redis listen_addr redis_addr default_target_url registry =
    elim (urls.parse_host default_target_url) [
      | none ↦ none
      | some default_host ↦
          let resolver = new_resolver redis (new_mappings redis redis_addr) in
          some (
            assemble redis listen_addr default_host resolver
              (new_conn_park redis resolver registry))
    ]

pub record Flags : Type 0 where
  pub redis_addr : Text
  pub listen_addr : Text
  pub admin_port : ℕ
  pub default_target : Text

abbrev pub default_flags : Flags
default_flags = record {
  redis_addr = codes "localhost:6379";
  listen_addr = codes "localhost:8088";
  admin_port = 8089;
  default_target = codes "http://localhost:7233";
}

-- The registry is loaded first; the admin server and the proxy share it. `none` is log.Fatal.
unfoldable pub main :
    ⦃murmur3 : Murmur3⦄ ⦃urls : Urls⦄ (redis : Redis)
    → SchemaJson
    → Flags
    → Option (StickyProxy redis)
unfolding new_sticky_proxy
main redis json flags =
    let client = redis.new_client (registry_address flags.redis_addr) in
    let registry = new_virtual_namespace_registry json redis client in
    new_sticky_proxy redis flags.listen_addr flags.redis_addr flags.default_target registry

-- net/http's server: ListenAndServe, which returns an error at last, and Shutdown
pub record HttpServer : Type 1 where
  pub World : Type 0
  pub Error : Type 0
  pub listen_and_serve : Text → World → Error × World
  pub shutdown : Text → World → Option Error × World

-- how the process ends: with a status, or by the return of main
pub data Exit (W : Type 0) : Type 0 where
  returns : W → Exit W
  log_fatal : W → Exit W

module _ ⦃server : HttpServer⦄ where
  open server use {World, Error}

  unfoldable pub start : {redis : Redis} → StickyProxy redis → World → Error × World
  start tp w = server.listen_and_serve tp.addr w

  unfoldable pub stop : {redis : Redis} → StickyProxy redis → World → Option Error × World
  stop tp w = server.shutdown tp.addr w

  -- the end of startAdminServer, once its handlers are registered
  unfoldable pub serve_admin_port : ℕ → World → Exit World
  serve_admin_port port w =
      let (e, w') = server.listen_and_serve (codes ":" ++ itoa port) w in log_fatal w'

  -- the end of main: the error of Start is dropped
  unfoldable pub run_proxy : {redis : Redis} → Option (StickyProxy redis) → World → Exit World
  unfolding start
  run_proxy none w = log_fatal w
  run_proxy (some proxy) w = let (e, w') = start proxy w in returns w'
