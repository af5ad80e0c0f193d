-- ===== src/Deployed.antt =====
-- What runs the program. conformance-tests/testcore is Temporal's own harness, but for what was added
-- to it here: TestCluster builds and starts the proxy in front of its cluster (test_cluster.go), and
-- each namespace of a test is registered with the admin API (functional_test_base.go). The harness's
-- own cluster, miniredis, the processes and gRPC are parameters.
pub mod CommandLine
pub mod Registration
use tempura.Common.{
  ℕ, Bool, true, false, Option, none, some, List, [], ◌∷◌, ◌++◌, Text, codes, if◌then◌else◌,
}
use tempura.Ring.Hash.{itoa}

-- the operations of the machine that the tests run on: `false` and `none` are errors
pub record Machine : Type 1 where
  pub World : Type 0
  pub Client : Type 0
  pub build : World → Bool × World
  pub run_miniredis : World → Option Text × World
  pub close_miniredis : World → World
  pub must_get_free_port : World → ℕ × World
  pub start_command : List Text → World → Bool × World
  pub kill : World → World
  pub dial : Text → World → Option Client × World

unfoldable pub proxy_address : ℕ → Text
proxy_address proxy_port = codes "localhost:" ++ itoa proxy_port

-- the arguments of tempura_test_bin
unfoldable pub command_arguments : Text → ℕ → ℕ → Text → List Text
unfolding proxy_address
command_arguments redis_addr proxy_port admin_port frontend_address =
    codes "-redis-addr"
    ∷ redis_addr
    ∷ codes "-listen-addr"
    ∷ proxy_address proxy_port
    ∷ codes "-admin-port"
    ∷ itoa admin_port
    ∷ codes "-default-target"
    ∷ (codes "http://" ++ frontend_address)
    ∷ []

module _ ⦃machine : Machine⦄ where
  open machine use {World, Client}

  -- the fields that were added; `miniredis` and `tempura_cmd` say that they are not nil
  pub record TestCluster : Type 0 where
    pub miniredis : Bool
    pub tempura_cmd : Bool
    pub proxy_port : ℕ
    pub admin_port : ℕ
    pub tempura_frontend_client : Option Client

  -- logger.Fatal, an error that is returned, or the cluster; with whether the binary was built
  pub data Launched : Type 0 where
    fatal : World → Launched
    refused : Bool → World → Launched
    launched : TestCluster → Bool → World → Launched

  unfoldable pub dial_proxy : ℕ → ℕ → World → Launched
  unfolding proxy_address
  dial_proxy proxy_port admin_port w =
      let (conn, w1) = machine.dial (proxy_address proxy_port) w in
      elim conn [
        | none ↦ refused true w1
        | some client ↦
            launched
              (record {
                miniredis = true;
                tempura_cmd = true;
                proxy_port = proxy_port;
                admin_port = admin_port;
                tempura_frontend_client = some client;
              })
              true w1
      ]

  unfoldable pub start_tempura : Text → Text → World → Launched
  unfolding command_arguments dial_proxy
  start_tempura redis_addr frontend_address w =
      let (proxy_port, w1) = machine.must_get_free_port w in
      let (admin_port, w2) = machine.must_get_free_port w1 in
      let (started, w3) =
        machine.start_command (command_arguments redis_addr proxy_port admin_port frontend_address)
          w2 in
      if started then dial_proxy proxy_port admin_port w3 else refused true w3

  unfoldable pub run_redis : Text → World → Launched
  unfolding start_tempura
  run_redis frontend_address w =
      let (redis_addr, w1) = machine.run_miniredis w in
      elim redis_addr [
        | none ↦ refused true w1
        | some address ↦ start_tempura address frontend_address w1
      ]

  -- from buildTempuraOnce on; `built` says that it has been done
  unfoldable pub launch : Text → Bool → World → Launched
  unfolding run_redis
  launch frontend_address true w = run_redis frontend_address w
  launch frontend_address false w =
      let (ok, w1) = machine.build w in if ok then run_redis frontend_address w1 else fatal w1

  -- the end of TearDownCluster
  unfoldable pub tear_down_cluster : TestCluster → World → World
  tear_down_cluster tc w =
      let w1 = if tc.miniredis then machine.close_miniredis w else w in
      if tc.tempura_cmd then machine.kill w1 else w1

  -- `host` is the client of the cluster itself
  unfoldable pub frontend_client : Client → TestCluster → Client
  frontend_client host tc = elim tc.tempura_frontend_client [ none ↦ host | some client ↦ client ]

  unfoldable pub tempura_proxy_grpc_address : TestCluster → Text
  unfolding proxy_address
  tempura_proxy_grpc_address tc = proxy_address tc.proxy_port

  unfoldable pub tempura_admin_api_address : TestCluster → Text
  tempura_admin_api_address tc = codes "http://localhost:" ++ itoa tc.admin_port
