-- ===== src/Serve.antt =====
-- proxy.go: the handler of NewStickyProxy, which picks a handler by the path, forwards what that
-- one leaves to the reverse proxy, and answers the polls itself; and the writing of a response.
pub mod Dispatch
pub mod Writing
use tempura.Common.{
  ℕ, ◌≡◌, Option, none, some, List, [], ◌∷◌, ◌++◌, Bytes, Text, codes, length, leb, if◌then◌else◌,
}
use tempura.Common.GoMap
use tempura.Common.GoMap.{GoMap}
use tempura.Common.Keys.{text_eq, string_key}
use tempura.Common.Strings.{contains_text, join}
use tempura.Redis.{Redis}
use tempura.Ring.Hash.{Murmur3}
use tempura.Registry.{VirtualNamespaceRegistry}
use tempura.Resolver.{Resolver}
use tempura.Http.{Header, Request, Response, set_host, set_body}
use tempura.Grpc.{Gzip, ProxyError, read_body}
use tempura.Proxy.Messages.{Protobuf}
use tempura.Proxy.Handlers.{
  Handled, rewrote, failed, crashed, hangs, handle_start_workflow_execution,
  handle_respond_workflow_task_completed, handle_respond_activity_task_completed,
  handle_respond_query_task_completed, handle_cancel_workflow, handle_signal_workflow,
  handle_query_workflow, handle_get_workflow_execution_history,
}
use tempura.ConnPark.{
  Transport, PollResult, Polled, answered, refused, process_dies, execute_poll,
  execute_poll_activity,
}

pub data Route : Type 0 where
  start_workflow poll_workflow_task poll_activity_task respond_workflow_task : Route
  respond_activity_task cancel_workflow workflow_history signal_workflow query_workflow : Route
  respond_query_task pass_through : Route

-- the first name in the chain that the path contains
unfoldable pub route_in : List (Text × Route) → Text → Route
route_in [] path = pass_through
route_in ((name, route) ∷ chain) path =
    let rest = route_in chain path in if contains_text path name then route else rest

-- the tests behind the one for StartWorkflowExecution
abbrev pub later_chain : List (Text × Route)
later_chain =
    (codes "PollWorkflowTaskQueue", poll_workflow_task)
    ∷ (codes "PollActivityTaskQueue", poll_activity_task)
    ∷ (codes "RespondWorkflowTaskCompleted", respond_workflow_task)
    ∷ (codes "RespondActivityTaskCompleted", respond_activity_task)
    ∷ (codes "CancelWorkflowExecution", cancel_workflow)
    ∷ (codes "GetWorkflowExecutionHistory", workflow_history)
    ∷ (codes "SignalWorkflowExecution", signal_workflow)
    ∷ (codes "QueryWorkflow", query_workflow)
    ∷ (codes "RespondQueryTaskCompleted", respond_query_task)
    ∷ []

abbrev pub chain : List (Text × Route)
chain = (codes "StartWorkflowExecution", start_workflow) ∷ later_chain

unfoldable pub route : Text → Route
unfolding route_in
route path = route_in chain path

-- What a request comes to: it is given to the reverse proxy, or answered from a poll, or its
-- goroutine panics or goes on for ever, or the whole process dies.
pub data Outcome (redis : Redis) : Type 0 where
  forwards : Request → Resolver redis → Outcome redis
  responds : Response → Resolver redis → Outcome redis
  internal_error : ProxyError → Resolver redis → Outcome redis
  aborts : Resolver redis → Outcome redis
  stuck : Outcome redis
  dies : Outcome redis

module _ (redis : Redis) where
  -- The new body, or on an error the old one, in the request as the handler left it.
  unfoldable pub forward_handled : Bytes → Handled redis → Outcome redis
  forward_handled body_bytes (rewrote new_body_bytes r resolver) =
      forwards (set_body new_body_bytes r) resolver
  forward_handled body_bytes (failed e r resolver) = forwards (set_body body_bytes r) resolver
  forward_handled body_bytes (crashed resolver) = aborts resolver
  forward_handled body_bytes hangs = stuck

  -- io.ReadAll(r.Body), and the handler; what cannot be read is forwarded as it is
  unfoldable pub with_body :
      Request → Resolver redis → (Request → Bytes → Handled redis) → Outcome redis
  unfolding forward_handled
  with_body r resolver handle = elim r.body [
    | none ↦ forwards r resolver
    | some body_bytes ↦ forward_handled body_bytes (handle r body_bytes)
  ]

  unfoldable pub write_polled : Polled redis → Outcome redis
  write_polled (answered resp resolver) = responds resp resolver
  write_polled (refused e resolver) = internal_error e resolver
  write_polled process_dies = dies

  -- what the two functions that serve polls share
  unfoldable pub serve_poll :
      Request → Resolver redis → (Request → Bytes → Polled redis) → Outcome redis
  unfolding write_polled
  serve_poll r resolver execute = elim r.body [
    | none ↦ internal_error read_body resolver
    | some body_bytes ↦ write_polled (execute r body_bytes)
  ]

module _ (redis : Redis) ⦃murmur3 : Murmur3⦄ ⦃gzip : Gzip⦄ ⦃wire : Transport⦄ (pb : Protobuf)
    (arrive : List PollResult → List PollResult) where
  unfoldable pub serve_poll_workflow_task_queue :
      Request → VirtualNamespaceRegistry → Resolver redis → Outcome redis
  unfolding serve_poll
  serve_poll_workflow_task_queue r registry resolver =
      serve_poll redis r resolver λ q b. execute_poll redis pb arrive q b registry resolver

  unfoldable pub serve_poll_activity_task_queue :
      Request → VirtualNamespaceRegistry → Resolver redis → Outcome redis
  unfolding serve_poll
  serve_poll_activity_task_queue r registry resolver =
      serve_poll redis r resolver λ q b. execute_poll_activity redis pb arrive q b registry resolver

  unfoldable pub serve_route :
      Route → Request → VirtualNamespaceRegistry → Resolver redis → Outcome redis
  unfolding with_body serve_poll_workflow_task_queue serve_poll_activity_task_queue
  serve_route start_workflow r registry resolver =
      with_body redis r resolver
        λ q b. handle_start_workflow_execution redis pb q b resolver registry
  serve_route poll_workflow_task r registry resolver =
      serve_poll_workflow_task_queue r registry resolver
  serve_route poll_activity_task r registry resolver =
      serve_poll_activity_task_queue r registry resolver
  serve_route respond_workflow_task r registry resolver =
      with_body redis r resolver
        λ q b. handle_respond_workflow_task_completed redis pb q b resolver registry
  serve_route respond_activity_task r registry resolver =
      with_body redis r resolver
        λ q b. handle_respond_activity_task_completed redis pb q b resolver registry
  serve_route cancel_workflow r registry resolver =
      with_body redis r resolver λ q b. handle_cancel_workflow redis pb q b resolver registry
  serve_route workflow_history r registry resolver =
      with_body redis r resolver
        λ q b. handle_get_workflow_execution_history redis pb q b resolver registry
  serve_route signal_workflow r registry resolver =
      with_body redis r resolver λ q b. handle_signal_workflow redis pb q b resolver registry
  serve_route query_workflow r registry resolver =
      with_body redis r resolver λ q b. handle_query_workflow redis pb q b resolver registry
  serve_route respond_query_task r registry resolver =
      with_body redis r resolver
        λ q b. handle_respond_query_task_completed redis pb q b resolver registry
  serve_route pass_through r registry resolver = forwards r resolver

  unfoldable pub serve : Request → VirtualNamespaceRegistry → Resolver redis → Outcome redis
  unfolding serve_route route
  serve r registry resolver = serve_route (route r.path) r registry resolver

-- the Director of the reverse proxy
unfoldable pub director : Text → Request → Request
director default_host req =
    let req' = record req { scheme = codes "http" } in
    if text_eq req'.url_host [] then set_host default_host req' else req'

-- what an http.ResponseWriter was given
pub record Written : Type 0 where
  pub header : Header
  pub status_code : ℕ
  pub body : Option Bytes

-- for k, v := range resp.Header { w.Header()[k] = v }
unfoldable pub copy_header : List (Text × List Text) → Header → Header
copy_header [] header = header
copy_header ((k, v) ∷ entries) header = copy_header entries (GoMap.put k v header)

unfoldable pub trailer_names : List (Text × List Text) → List Text
trailer_names [] = []
trailer_names ((k, v) ∷ entries) = k ∷ trailer_names entries

unfoldable pub values_of : Option (List Text) → List Text
values_of none = []
values_of (some values) = values

-- w.Header().Add(http.TrailerPrefix+k, vv), for every value
unfoldable pub add_values : Text → List Text → Header → Header
unfolding values_of
add_values name [] header = header
add_values name (v ∷ values) header =
    add_values name values (GoMap.put name (values_of (GoMap.get header name) ++ (v ∷ [])) header)

unfoldable pub add_trailers : List (Text × List Text) → Header → Header
unfolding add_values
add_trailers [] header = header
add_trailers ((k, v) ∷ entries) header =
    add_trailers entries (add_values (codes "Trailer:" ++ k) v header)

unfoldable pub write_proxy_response : Response → Header → Written
unfolding copy_header trailer_names add_trailers
write_proxy_response resp header =
    let copied = copy_header resp.header header in
    let announced =
      if leb (length resp.trailer) 0
      then copied
      else GoMap.put (codes "Trailer") (join (trailer_names resp.trailer) (codes ",") ∷ [])
          copied in
    record {
      header = add_trailers resp.trailer announced;
      status_code = resp.status_code;
      body = resp.body;
    }
