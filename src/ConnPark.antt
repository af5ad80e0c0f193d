-- ===== src/ConnPark.antt =====
-- connpark.go: a poll is sent to every physical namespace of its virtual namespace, and the first
-- task that comes back is the answer. The two polls differ in their messages alone.
pub mod FirstTask
pub mod FanOut
use tempura.Common.{
  ℕ, ◌&&◌, not, Option, none, some, List, [], ◌∷◌, Bytes, Text, codes, length, drop, leb, ◌==◌,
  if◌then◌else◌,
}
use tempura.Common.Keys.{text_eq}
use tempura.Common.Result.{ok, err}
use tempura.Redis.{Redis}
use tempura.Mappings
use tempura.Namespace.{parse_physical_namespace}
use tempura.VirtualNamespace.{VirtualNamespace, get_all_namespaces}
use tempura.Registry
use tempura.Registry.{VirtualNamespaceRegistry}
use tempura.Resolver.{Resolver}
use tempura.Http.{Request, Response, set_host, set_body, forget_length}
use tempura.Grpc.{
  Gzip, Unzipped, bad_header, broken, whole, ProxyError, bad_message, unencodable_message,
  namespace_not_found, no_physical_namespaces, all_failed, transport, first_byte, extract_payload,
  frame,
}
use tempura.Proxy.Messages.{Codec, PollRequest, PollResponse, Protobuf}

-- http.RoundTripper, a parameter; `none` is an error
pub record Transport : Type 0 where
  pub round_trip : Request → Option Response

-- `err` or `resp`, with `physNs`
pub data PollResult : Type 0 where
  got : Response → Text → PollResult
  failed : ProxyError → Text → PollResult

-- How a poll ends: with a response, with an error, or with the whole process, by a panic in a
-- goroutine that nothing recovers.
pub data Polled (redis : Redis) : Type 0 where
  answered : Response → Resolver redis → Polled redis
  refused : ProxyError → Resolver redis → Polled redis
  process_dies : Polled redis

-- the request to one cluster
unfoldable pub poll_request : Request → Text → Bytes → Request
poll_request original_req address new_pb_payload =
    record (set_body (frame new_pb_payload) (forget_length (set_host address original_req))) {
      scheme = codes "http";
      request_uri = [];
    }

unfoldable pub sent : Option Response → Text → PollResult
sent none phys_ns = failed transport phys_ns
sent (some resp) phys_ns = got resp phys_ns

-- pollSingleCluster and pollSingleActivityCluster
unfoldable pub poll_single :
    ⦃wire : Transport⦄ → Codec PollRequest → Request → PollRequest → Text → Option PollResult
unfolding poll_request sent
poll_single ⦃wire⦄ codec original_req req_struct phys_ns = elim (parse_physical_namespace phys_ns) [
  | none ↦ none
  | some ns ↦ elim (codec.marshal (record req_struct { namespace = ns.name })) [
    | none ↦ some (failed unencodable_message phys_ns)
    | some new_pb_payload ↦
        some (sent (wire.round_trip (poll_request original_req ns.address new_pb_payload)) phys_ns)
  ]
]

-- the goroutines: one for each slot; `none` if one of them panics
unfoldable pub poll_all :
    ⦃wire : Transport⦄
    → Codec PollRequest
    → Request
    → PollRequest
    → List Text
    → Option (List PollResult)
unfolding poll_single
poll_all codec original_req req_struct [] = some []
poll_all codec original_req req_struct (phys_ns ∷ slots) =
    elim (poll_single codec original_req req_struct phys_ns) [
      | none ↦ none
      | some result ↦ elim (poll_all codec original_req req_struct slots) [
        | none ↦ none
        | some results ↦ some (result ∷ results)
      ]
    ]

-- the payload of a response: what cannot be unzipped is kept as it is, and what ends early is cut
unfoldable pub response_payload : Unzipped → Bytes → Bytes
response_payload bad_header raw = raw
response_payload (broken some_bytes) raw = some_bytes
response_payload (whole plain) raw = plain

module _ ⦃gzip : Gzip⦄ where
  -- the task in a response, if it has one
  unfoldable pub task_in : Codec PollResponse → ℕ → Bytes → Option PollResponse
  unfolding response_payload
  task_in codec status_code resp_body_bytes =
      if not (leb (length resp_body_bytes) 5) && status_code == 200
      then (let raw = drop 5 resp_body_bytes in
          let payload =
            if first_byte resp_body_bytes == 1
            then response_payload (gzip.gunzip raw) raw
            else raw in
          elim (codec.unmarshal payload) [
            | none ↦ none
            | some poll_resp ↦ if leb (length poll_resp.task_token) 0 then none else some poll_resp
          ])
      else none

module _ (redis : Redis) where
  -- cp.resolver.Cache.Put(workflowID, res.physNs), if the task names a workflow
  unfoldable pub cache_task : Option Text → Text → Resolver redis → Resolver redis
  cache_task none phys_ns r = r
  cache_task (some workflow_id) phys_ns r =
      if text_eq workflow_id []
      then r
      else record r { cache = Mappings.put redis workflow_id phys_ns r.cache }

  -- after the loop: the last response without a task, or else an error
  unfoldable pub no_task : Option Response → Resolver redis → Polled redis
  no_task none r = refused all_failed r
  no_task (some last_empty_resp) r = answered last_empty_resp r

  module _ ⦃gzip : Gzip⦄ (codec : Codec PollResponse) where
    -- for res := range resultCh: the results in the order in which they arrive
    unfoldable pub collect : List PollResult → Option Response → Resolver redis → Polled redis
    unfolding cache_task no_task
    collect [] last_empty_resp r = no_task last_empty_resp r
    collect (failed e phys_ns ∷ results) last_empty_resp r = collect results last_empty_resp r
    collect (got resp phys_ns ∷ results) last_empty_resp r = elim resp.body [
      | none ↦ collect results last_empty_resp r
      | some resp_body_bytes ↦ elim (task_in codec resp.status_code resp_body_bytes) [
        | some poll_resp ↦ answered resp (cache_task poll_resp.execution phys_ns r)
        | none ↦ collect results (some resp) r
      ]
    ]

-- The order of arrival is the environment's: `arrive` rearranges the results.
module _ (redis : Redis) ⦃gzip : Gzip⦄ ⦃wire : Transport⦄ (pb : Protobuf)
    (arrive : List PollResult → List PollResult) where
  -- the answer of the clusters of one virtual namespace
  unfoldable pub fan_out :
      Codec PollRequest
      → Codec PollResponse
      → Request
      → PollRequest
      → Option VirtualNamespace
      → Resolver redis
      → Polled redis
  unfolding poll_all collect
  fan_out req_codec resp_codec original_req req_struct none r = refused namespace_not_found r
  fan_out req_codec resp_codec original_req req_struct (some virtual_ns) r =
      let slots = get_all_namespaces virtual_ns in
      if leb (length slots) 0
      then refused no_physical_namespaces r
      else elim (poll_all req_codec original_req req_struct slots) [
        | none ↦ process_dies
        | some results ↦ collect redis resp_codec (arrive results) none r
      ]

  unfoldable pub poll_with :
      Codec PollRequest
      → Codec PollResponse
      → Request
      → Bytes
      → VirtualNamespaceRegistry
      → Resolver redis
      → Polled redis
  unfolding fan_out
  poll_with req_codec resp_codec original_req body_bytes registry r =
      elim (extract_payload body_bytes) [
        | err e ↦ refused e r
        | ok (pb_payload, is_compressed) ↦ elim (req_codec.unmarshal pb_payload) [
          | none ↦ refused bad_message r
          | some req_struct ↦
              fan_out req_codec resp_codec original_req req_struct
                (Registry.resolve req_struct.namespace registry) r
        ]
      ]

  unfoldable pub execute_poll :
      Request → Bytes → VirtualNamespaceRegistry → Resolver redis → Polled redis
  unfolding poll_with
  execute_poll = poll_with pb.poll_workflow_task_queue pb.poll_workflow_task_queue_response

  unfoldable pub execute_poll_activity :
      Request → Bytes → VirtualNamespaceRegistry → Resolver redis → Polled redis
  unfolding poll_with
  execute_poll_activity = poll_with pb.poll_activity_task_queue pb.poll_activity_task_queue_response
