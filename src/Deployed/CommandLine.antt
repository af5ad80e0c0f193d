-- ===== src/Deployed/CommandLine.antt =====
-- main.go: the flags of the command line, as package flag reads them, and what main makes of those
-- that test_cluster.go gives. `none` is an exit: with a message, or with the usage.
use tempura.Common.{ℕ, ◌≡◌, Option, none, some, List, [], ◌∷◌, Text, codes, ◌==◌, if◌then◌else◌}
use tempura.Common.Keys.{text_eq}
use tempura.Redis.{Redis}
use tempura.Ring.Hash.{Murmur3}
use tempura.Mappings.{new_mappings, mappings_address}
use tempura.Registry.Checkpoint.{SchemaJson, new_virtual_namespace_registry, registry_address}
use tempura.Startup.{Urls, Flags, default_flags, StickyProxy, main, new_conn_park, assemble}
use tempura.Resolver.{new_resolver}

-- strconv.ParseInt
pub record Numerals : Type 0 where
  pub parse_int : Text → Option ℕ

-- an argument: the end of the flags, a malformed one, or a name with the value after an equals sign
pub data Token : Type 0 where
  stop : Token
  malformed : Token
  flag : Text → Option Text → Token

-- the name up to the first equals sign
unfoldable pub cut : Text → Text × Option Text
cut [] = ([], none)
cut (c ∷ name) =
    let (before, after) = cut name in if c == 61 then ([], some name) else (c ∷ before, after)

unfoldable pub flag_of : Text → Token
unfolding cut
flag_of [] = malformed
flag_of (c ∷ name) =
    if c == 45
    then malformed
    else if c == 61
    then malformed
    else (let (before, after) = cut (c ∷ name) in flag before after)

-- one dash or two; a dash alone is no flag, and two alone end them
unfoldable pub after_dash : Text → Token
unfolding flag_of
after_dash [] = stop
after_dash (c ∷ []) = if c == 45 then stop else flag_of (c ∷ [])
after_dash (c ∷ d ∷ name) = if c == 45 then flag_of (d ∷ name) else flag_of (c ∷ d ∷ name)

unfoldable pub token : Text → Token
unfolding after_dash
token [] = stop
token (c ∷ arg) = if c == 45 then after_dash arg else stop

module _ ⦃numerals : Numerals⦄ where
  unfoldable pub set_flag : Text → Text → Flags → Option Flags
  set_flag name value f =
      if text_eq name (codes "redis-addr")
      then some (record f { redis_addr = value })
      else if text_eq name (codes "listen-addr")
      then some (record f { listen_addr = value })
      else if text_eq name (codes "admin-port")
      then elim (numerals.parse_int value) [
        | none ↦ none
        | some port ↦ some (record f { admin_port = port })
      ]
      else if text_eq name (codes "default-target")
      then some (record f { default_target = value })
      else none

  -- the name whose value is the next argument
  pub data Parsing : Type 0 where
    exits : Parsing
    stopped : Flags → Parsing
    ready : Flags → Parsing
    expecting : Text → Flags → Parsing

  unfoldable pub with_flags : Option Flags → Parsing
  with_flags none = exits
  with_flags (some f) = ready f

  unfoldable pub parse_token : Token → Flags → Parsing
  unfolding set_flag with_flags
  parse_token stop f = stopped f
  parse_token malformed f = exits
  parse_token (flag name (some value)) f = with_flags (set_flag name value f)
  parse_token (flag name none) f = expecting name f

  unfoldable pub parse_argument : Text → Parsing → Parsing
  unfolding parse_token token set_flag with_flags
  parse_argument arg exits = exits
  parse_argument arg (stopped f) = stopped f
  parse_argument arg (ready f) = parse_token (token arg) f
  parse_argument arg (expecting name f) = with_flags (set_flag name arg f)

  unfoldable pub parse_arguments : List Text → Parsing → Parsing
  unfolding parse_argument
  parse_arguments [] p = p
  parse_arguments (arg ∷ args) p = parse_arguments args (parse_argument arg p)

  unfoldable pub parsed : Parsing → Option Flags
  parsed exits = none
  parsed (stopped f) = some f
  parsed (ready f) = some f
  parsed (expecting name f) = none

  unfoldable pub parse_flags : List Text → Option Flags
  unfolding parse_arguments parsed
  parse_flags args = parsed (parse_arguments args (ready default_flags))

module _ ⦃numerals : Numerals⦄ ⦃murmur3 : Murmur3⦄ ⦃urls : Urls⦄ (redis : Redis)
    (json : SchemaJson) where
  -- flag.Parse and the rest of main
  unfoldable pub run_program : List Text → Option (StickyProxy redis)
  unfolding parse_flags
  run_program args = elim (parse_flags args) [ none ↦ none | some f ↦ main redis json f ]

  -- A proxy that serves the cluster at `host` from the server at `redis_addr`.
  pub record Serves (redis_addr listen_addr host : Text) (proxy : StickyProxy redis) : Type 0 where
    pub addr : proxy.addr ≡ listen_addr
    pub default_host : proxy.default_host ≡ host
    pub cache : proxy.resolver.cache.client ≡ redis.new_client redis_addr
    pub polls : proxy.conn_park.resolver.cache.client ≡ redis.new_client redis_addr
    pub registry :
        proxy.conn_park.registry
        ≡ new_virtual_namespace_registry json redis (redis.new_client redis_addr)

  -- what main makes of flags whose default target is a URL
  unfoldable made : Flags → Text → StickyProxy redis
  unfolding new_conn_park new_resolver new_mappings mappings_address registry_address assemble
  made f host =
      let resolver = new_resolver redis (new_mappings redis f.redis_addr) in
      let client = redis.new_client (registry_address f.redis_addr) in
      let registry = new_virtual_namespace_registry json redis client in
      assemble redis f.listen_addr host resolver (new_conn_park redis resolver registry)
