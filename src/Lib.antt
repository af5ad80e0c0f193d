-- ===== src/Lib.antt =====
-- tempura: a proxy that shards Temporal workflows over several clusters. A client speaks to one
-- virtual namespace; the proxy sends each workflow to one of the physical namespaces behind it,
-- and keeps it there.
--
-- The parts and how they interact:
-- - resolver.go has the ring (ConsistentHash) that chooses a physical namespace for a new
--   workflow, and the Resolver, which asks the routing cache first. Ring.antt and its children
--   model the ring: View says what its map and its points hold after each operation, Owner and
--   Search what a lookup finds, Invariant what every operation keeps, Disruption which keys move,
--   and Refinement relates any sequence of operations to an abstract ring, a function from points
--   to slots. Resolver.antt models Resolve: Sticky is about one call, Guarantees about any number
--   of them one after the other, Races about calls at the same time, Changing about such calls
--   while the ring changes, Counting about the counter of allocations, and SharedStore about the
--   server that also holds the checkpoint of the registry.
-- - mappings.go is the routing cache, a client of Redis: Mappings.antt over the parameter of
--   Redis.antt.
-- - virtualnamespace.go has the names of physical namespaces (Namespace.antt), the virtual
--   namespaces with their statuses (VirtualNamespace.antt) and the registry of them
--   (Registry.antt), which is loaded and checkpointed in Registry/Checkpoint.antt;
--   Registry/Loading and Registry/Recovery are about the one reading what the other wrote.
-- - apis.go changes the registry: Admin.antt has one function per handler; Effects says what each
--   leaves, and Session takes the registry as a state machine whose steps are the replies.
-- - proxy.go rewrites requests. TaskToken.antt is extractWorkflowIDFromTaskToken, Grpc.antt the
--   frame around a message, Proxy/Handlers.antt the eight handlers, and Serve.antt the choice
--   between them, the forwarding and the writing of a response (Serve/Dispatch and
--   Serve/Writing). Http.antt and Proxy/Messages.antt hold the fields of the requests and
--   messages that the program reads or writes.
-- - main.go and the constructors put the parts together: Startup.antt, with Start and Stop.
--   payload.go makes random payloads: Payloads.antt. The demo under scripts is Scripts.antt, and
--   its mains are Scripts/Mains.antt.
-- - conformance-tests is a copy of Temporal's functional tests and their harness. Deployed.antt
--   has what was added to that harness here: test_cluster.go starts the proxy in front of a test
--   cluster, whose command line Deployed/CommandLine.antt reads as main.go does, and
--   functional_test_base.go registers each namespace with the admin API
--   (Deployed/Registration.antt).
-- - connpark.go sends a poll to all the physical namespaces of a virtual one: ConnPark.antt, with
--   FirstTask and FanOut.
--
-- How the code corresponds to the model. A pointer receiver is a record that the operation
-- returns changed; a Go map is an association list, whose order stands for the order of a range
-- loop; a string is a list of bytes; nil and a missing key are an Option. A method that holds its
-- mutex for its whole body is one step. A panic is an outcome: Run keeps the object as the panic
-- left it, Handled and Served are about one request, and a panic in a goroutine that nothing
-- recovers ends the process. An `int` of the token scan is its 64-bit pattern, so that the index
-- wraps as it does in Go.
--
-- Fuel: extract_workflow_id runs the loop for one round more than the token has bytes. Every
-- round that does not wrap moves the index forward, which is why this is enough where no varint
-- is huge; on other tokens the loop of the code may go on for ever, and the model says that it is
-- still running. The decimal digits of a virtual node's number have as many rounds as the number.
--
-- Parameters: murmur3 (a function into 32 bits), Redis (the documented laws of its commands while
-- the server answers), gzip, the protobuf codec (what is marshalled is read back), the HTTP
-- transport, the JSON codecs, the order in which the results of a poll arrive (any permutation),
-- the server of net/http, the SDK, strconv's numbers, and the machine that the tests run on.
--
-- Not modelled: the endpoint of the metrics and the logs, the set-up of the transports and of
-- h2c, the reverse proxy behind the Director, and the conformance tests with their harness, which
-- are those of the Temporal server, but for the proxy under them. In Startup.antt the clients of
-- the registry and of the cache are separate states; Resolver/SharedStore.antt is about the one
-- server that both reach. A poll's cancelled requests are not seen, since nothing reads their
-- results.
pub mod Common
pub mod Ring
pub mod Namespace
pub mod VirtualNamespace
pub mod Redis
pub mod Mappings
pub mod Registry
pub mod Resolver
pub mod TaskToken
pub mod Http
pub mod Grpc
pub mod Admin
pub mod Proxy
pub mod ConnPark
pub mod Serve
pub mod Startup
pub mod Payloads
pub mod Deployed
pub mod Scripts
pub mod Tests
