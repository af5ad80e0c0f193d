-- ===== src/Proxy/Handlers.antt =====
-- proxy.go: the handlers that rewrite a request for the cluster of its workflow.
use tempura.Common.{Option, none, some, List, [], ◌∷◌, Bytes, Text, if◌then◌else◌}
use tempura.Common.Keys.{text_eq}
use tempura.Common.Result.{ok, err}
use tempura.Redis.{Redis}
use tempura.Mappings
use tempura.Ring.Hash.{Murmur3}
use tempura.Namespace.{parse_physical_namespace}
use tempura.Registry.{VirtualNamespaceRegistry}
use tempura.Resolver
use tempura.Resolver.{Payload, Resolver}
use tempura.TaskToken.{Scan, found, refused, panicked, running, extract_workflow_id}
use tempura.Http.{Request, set_host}
use tempura.Grpc.{
  Gzip, ProxyError, bad_message, unencodable_message, extract_payload, encode_grpc_payload,
}
use tempura.Proxy.Messages.{
  Codec, CommandType, complete_workflow_execution, other_command, ExecutionRequest, Protobuf,
}

-- What a handler did: it returned a body or an error, with the request and the resolver that it
-- left; it panicked, with the resolver that it left; or it never came back.
pub data Handled (redis : Redis) : Type 0 where
  rewrote : Bytes → Request → Resolver redis → Handled redis
  failed : ProxyError → Request → Resolver redis → Handled redis
  crashed : Resolver redis → Handled redis
  hangs : Handled redis

-- the workflow id that a task token gives, with a fallback for an error or an empty id
pub data TokenId : Type 0 where
  token_id : Text → TokenId
  token_panics : TokenId
  token_loops : TokenId

unfoldable pub id_or : Text → Scan → TokenId
id_or fallback (found t) = if text_eq t [] then token_id fallback else token_id t
id_or fallback (refused e) = token_id fallback
id_or fallback panicked = token_panics
id_or fallback running = token_loops

-- GetWorkflowId of a WorkflowExecution pointer
unfoldable pub get_workflow_id : Option Text → Text
get_workflow_id none = []
get_workflow_id (some workflow_id) = workflow_id

module _ (redis : Redis) where
  -- for _, command := range req.Commands { … resolver.Cache.Delete(workflowID) … }
  unfoldable pub delete_completed : List CommandType → Text → Resolver redis → Resolver redis
  delete_completed [] workflow_id r = r
  delete_completed (complete_workflow_execution ∷ commands) workflow_id r =
      delete_completed commands workflow_id
        (record r { cache = Mappings.delete redis workflow_id r.cache })
  delete_completed (other_command n ∷ commands) workflow_id r =
      delete_completed commands workflow_id r

  -- the end that the handlers share: parse the physical namespace, rewrite the message and the
  -- host, marshal, and frame
  unfoldable pub rewrite_target :
      {M : Type 0} → Codec M → (Text → M) → Text → Request → Resolver redis → Handled redis
  rewrite_target codec with_namespace phys_ns r resolver = elim (parse_physical_namespace phys_ns) [
    | none ↦ crashed resolver
    | some ns ↦
        let r' = set_host ns.address r in
        elim (codec.marshal (with_namespace ns.name)) [
          | none ↦ failed unencodable_message r' resolver
          | some new_pb_payload ↦
              let (new_body, r'') = encode_grpc_payload new_pb_payload r' in
              rewrote new_body r'' resolver
        ]
  ]

  -- the start that the handlers share: take the payload out of its frame, and unmarshal it
  unfoldable pub read_message :
      {M : Type 0} ⦃gzip : Gzip⦄
      → Codec M
      → Bytes
      → Request
      → Resolver redis
      → (M → Handled redis)
      → Handled redis
  read_message codec body_bytes r resolver continue = elim (extract_payload body_bytes) [
    | err e ↦ failed e r resolver
    | ok (pb_payload, is_compressed) ↦ elim (codec.unmarshal pb_payload) [
      | none ↦ failed bad_message r resolver
      | some req ↦ continue req
    ]
  ]

  unfoldable pub with_token_id : TokenId → Resolver redis → (Text → Handled redis) → Handled redis
  with_token_id (token_id t) resolver continue = continue t
  with_token_id token_panics resolver continue = crashed resolver
  with_token_id token_loops resolver continue = hangs

module _ (redis : Redis) ⦃murmur3 : Murmur3⦄ ⦃gzip : Gzip⦄ (pb : Protobuf) where
  -- resolver.Resolve, and the rewriting with the physical namespace that it returned
  unfoldable pub resolve_and_rewrite :
      {M : Type 0}
      → Codec M
      → (Text → M)
      → Payload
      → VirtualNamespaceRegistry
      → Request
      → Resolver redis
      → Handled redis
  resolve_and_rewrite codec with_namespace payload registry r resolver =
      let ((phys_ns, hit), resolver') = Resolver.resolve redis payload registry resolver in
      rewrite_target redis codec with_namespace phys_ns r resolver'

  unfoldable pub handle_start_workflow_execution :
      Request → Bytes → Resolver redis → VirtualNamespaceRegistry → Handled redis
  unfolding read_message resolve_and_rewrite
  handle_start_workflow_execution r body_bytes resolver registry =
      read_message redis pb.start_workflow_execution body_bytes r resolver λ req.
        resolve_and_rewrite pb.start_workflow_execution (λ ns. record req { namespace = ns })
          (record { workflow_id = req.workflow_id; virtual_namespace = req.namespace }) registry r
          resolver

  -- The cache entry of a completed workflow is deleted after it was resolved.
  unfoldable pub handle_respond_workflow_task_completed :
      Request → Bytes → Resolver redis → VirtualNamespaceRegistry → Handled redis
  unfolding read_message with_token_id id_or delete_completed rewrite_target
  handle_respond_workflow_task_completed r body_bytes resolver registry =
      read_message redis pb.respond_workflow_task_completed body_bytes r resolver λ req.
        with_token_id redis (id_or req.resource_id (extract_workflow_id req.task_token)) resolver
          λ workflow_id.
            let payload : Payload = record {
              workflow_id = workflow_id;
              virtual_namespace = req.namespace;
            } in
            let ((phys_ns, hit), resolver') = Resolver.resolve redis payload registry resolver in
            rewrite_target redis pb.respond_workflow_task_completed
              (λ ns. record req { namespace = ns }) phys_ns r
              (delete_completed redis req.commands workflow_id resolver')

  unfoldable pub handle_respond_activity_task_completed :
      Request → Bytes → Resolver redis → VirtualNamespaceRegistry → Handled redis
  unfolding read_message with_token_id id_or resolve_and_rewrite
  handle_respond_activity_task_completed r body_bytes resolver registry =
      read_message redis pb.respond_activity_task_completed body_bytes r resolver λ req.
        with_token_id redis (id_or req.resource_id (extract_workflow_id req.task_token)) resolver
          λ workflow_id.
            resolve_and_rewrite pb.respond_activity_task_completed
              (λ ns. record req { namespace = ns })
              (record { workflow_id = workflow_id; virtual_namespace = req.namespace }) registry r
              resolver

  -- A failed extraction leaves the workflow id empty: there is no ResourceId to fall back to.
  unfoldable pub handle_respond_query_task_completed :
      Request → Bytes → Resolver redis → VirtualNamespaceRegistry → Handled redis
  unfolding read_message with_token_id id_or resolve_and_rewrite
  handle_respond_query_task_completed r body_bytes resolver registry =
      read_message redis pb.respond_query_task_completed body_bytes r resolver λ req.
        with_token_id redis (id_or [] (extract_workflow_id req.task_token)) resolver λ workflow_id.
          resolve_and_rewrite pb.respond_query_task_completed (λ ns. record req { namespace = ns })
            (record { workflow_id = workflow_id; virtual_namespace = req.namespace }) registry r
            resolver

  -- the handlers of the four requests that name a WorkflowExecution
  unfoldable pub handle_execution :
      Codec ExecutionRequest
      → Request
      → Bytes
      → Resolver redis
      → VirtualNamespaceRegistry
      → Handled redis
  unfolding read_message resolve_and_rewrite get_workflow_id
  handle_execution codec r body_bytes resolver registry =
      read_message redis codec body_bytes r resolver λ req.
        resolve_and_rewrite codec (λ ns. record req { namespace = ns })
          (record {
            workflow_id = get_workflow_id req.execution;
            virtual_namespace = req.namespace;
          })
          registry r resolver

  unfoldable pub handle_cancel_workflow :
      Request → Bytes → Resolver redis → VirtualNamespaceRegistry → Handled redis
  unfolding handle_execution
  handle_cancel_workflow = handle_execution pb.request_cancel_workflow_execution

  unfoldable pub handle_signal_workflow :
      Request → Bytes → Resolver redis → VirtualNamespaceRegistry → Handled redis
  unfolding handle_execution
  handle_signal_workflow = handle_execution pb.signal_workflow_execution

  unfoldable pub handle_query_workflow :
      Request → Bytes → Resolver redis → VirtualNamespaceRegistry → Handled redis
  unfolding handle_execution
  handle_query_workflow = handle_execution pb.query_workflow

  unfoldable pub handle_get_workflow_execution_history :
      Request → Bytes → Resolver redis → VirtualNamespaceRegistry → Handled redis
  unfolding handle_execution
  handle_get_workflow_execution_history = handle_execution pb.get_workflow_execution_history
