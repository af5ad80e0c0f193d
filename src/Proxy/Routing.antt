-- ===== src/Proxy/Routing.antt =====
-- proxy.go: where the handlers send a request, and what they leave behind.
use tempura.Common.{◌+◌, ◌≡◌, ◌≢◌, ◌∙◌, refl, none, some, [], arith, Bytes, Text, inl}
use tempura.Common.Result.{err}
use tempura.Redis.{Redis, missing}
use tempura.Ring.Hash.{Murmur3}
use tempura.Common.Strings.{contains_text}
use tempura.Namespace.{Target, parse_physical_namespace}
use tempura.Namespace.Parse.{parse_panics}
use tempura.Registry
use tempura.Registry.{VirtualNamespaceRegistry}
use tempura.Resolver
use tempura.Resolver.{Payload, Resolver}
use tempura.Resolver.Sticky.{IsPinned, resolve_hit, resolve_miss}
use tempura.Http.{Request, set_host, forget_length}
use tempura.Grpc.{Gzip, ProxyError, extract_payload, encode_grpc_payload, frame}
use tempura.Grpc.Frame.{extract_payload-frame}
use tempura.Proxy.Messages.{Codec, ExecutionRequest, Protobuf}
use tempura.Proxy.Handlers.{
  Handled, rewrote, failed, crashed, get_workflow_id, rewrite_target, read_message,
  resolve_and_rewrite, handle_execution, handle_start_workflow_execution,
  handle_respond_workflow_task_completed, handle_respond_activity_task_completed,
  handle_respond_query_task_completed, handle_cancel_workflow, handle_signal_workflow,
  handle_query_workflow, handle_get_workflow_execution_history,
}

module _ (redis : Redis) {M : Type 0} (codec : Codec M) where
  pub rewrite_target_at :
      (with_namespace : Text → M) (phys_ns : Text) (r : Request) (resolver : Resolver redis)
      (target : Target) (b : Bytes)
      → parse_physical_namespace phys_ns ≡ some target
      → codec.marshal (with_namespace target.name) ≡ some b
      → rewrite_target redis codec with_namespace phys_ns r resolver
        ≡ rewrote (frame b) (forget_length (set_host target.address r)) resolver
  unfolding rewrite_target encode_grpc_payload
  rewrite_target_at with_namespace phys_ns r resolver target b parsed encoded =
      ground (arith, parsed, encoded)

  rewrite_target_crashes :
      (with_namespace : Text → M) (phys_ns : Text) (r : Request) (resolver : Resolver redis)
      → parse_physical_namespace phys_ns ≡ none
      → rewrite_target redis codec with_namespace phys_ns r resolver ≡ crashed resolver
  unfolding rewrite_target
  rewrite_target_crashes with_namespace phys_ns r resolver lost = ground (arith, lost)

  pub read_message-frame :
      ⦃gzip : Gzip⦄ (m : M) (b : Bytes) (r : Request) (resolver : Resolver redis)
      (continue : M → Handled redis)
      → codec.marshal m ≡ some b
      → b ≢ []
      → read_message redis codec (frame b) r resolver continue ≡ continue m
  unfolding read_message
  read_message-frame m b r resolver continue encoded full =
      ground (arith, extract_payload-frame b full, codec.unmarshal-marshal m b encoded)

-- what a hit leaves of a resolver: one more counted
abbrev pub after_hit : {redis : Redis} → Resolver redis → Resolver redis
after_hit r = record r { cache = record r.cache { cache_hit_count = r.cache.cache_hit_count + 1 } }

-- and a miss
abbrev pub after_miss : {redis : Redis} → Resolver redis → Resolver redis
after_miss r = record r {
  cache = record r.cache { cache_miss_count = r.cache.cache_miss_count + 1 };
}

module _ (redis : Redis) ⦃murmur3 : Murmur3⦄ ⦃gzip : Gzip⦄ (pb : Protobuf) where
  resolve_and_rewrite_pinned :
      {M : Type 0} (codec : Codec M) (with_namespace : Text → M) (payload : Payload)
      (registry : VirtualNamespaceRegistry) (r : Request) (resolver : Resolver redis) (ns : Text)
      (target : Target) (b : Bytes)
      → IsPinned redis resolver payload.workflow_id ns
      → parse_physical_namespace ns ≡ some target
      → codec.marshal (with_namespace target.name) ≡ some b
      → resolve_and_rewrite redis pb codec with_namespace payload registry r resolver
        ≡ rewrote (frame b) (forget_length (set_host target.address r)) (after_hit resolver)
  unfolding resolve_and_rewrite
  resolve_and_rewrite_pinned codec with_namespace payload registry r resolver ns target b pinned
        parsed encoded =
      rw (resolve_hit redis payload registry resolver ns pinned.held pinned.named) (
        rewrite_target_at redis codec with_namespace ns r (after_hit resolver) target b parsed
          encoded)

  -- A cancel, signal, query or history request that names a pinned workflow, in a frame of an
  -- encoded message, is rewritten with the physical namespace and nothing else of the message
  -- changed, and sent to the address of that namespace, if the new message can be encoded; the
  -- resolver only counts a hit.
  pub handle_execution-pinned :
      (codec : Codec ExecutionRequest) (req : ExecutionRequest) (in_bytes out_bytes : Bytes)
      (registry : VirtualNamespaceRegistry) (r : Request) (resolver : Resolver redis) (ns : Text)
      (target : Target)
      → codec.marshal req ≡ some in_bytes
      → in_bytes ≢ []
      → IsPinned redis resolver (get_workflow_id req.execution) ns
      → parse_physical_namespace ns ≡ some target
      → codec.marshal (record req { namespace = target.name }) ≡ some out_bytes
      → handle_execution redis pb codec r (frame in_bytes) resolver registry
        ≡ rewrote (frame out_bytes) (forget_length (set_host target.address r)) (after_hit resolver)
  unfolding handle_execution
  handle_execution-pinned codec req in_bytes out_bytes registry r resolver ns target encoded full
        pinned parsed encoded' =
      read_message-frame redis codec req in_bytes r resolver _ encoded full
      ∙ resolve_and_rewrite_pinned codec _ _ registry r resolver ns target out_bytes pinned parsed
          encoded'

  resolve_and_rewrite_unknown :
      {M : Type 0} (codec : Codec M) (with_namespace : Text → M) (payload : Payload)
      (registry : VirtualNamespaceRegistry) (r : Request) (resolver : Resolver redis)
      → redis.get resolver.cache.client payload.workflow_id ≡ missing
      → Registry.resolve payload.virtual_namespace registry ≡ none
      → resolve_and_rewrite redis pb codec with_namespace payload registry r resolver
        ≡ crashed (after_miss resolver)
  unfolding resolve_and_rewrite Resolver.allocate contains_text
  resolve_and_rewrite_unknown codec with_namespace payload registry r resolver cold unknown =
      rw (resolve_miss redis payload registry resolver (inl cold), unknown)
        (rewrite_target_crashes redis codec with_namespace [] r (after_miss resolver)
          ((parse_panics []).1 refl))

  -- A cancel, signal, query or history request for a virtual namespace that is not registered,
  -- with a workflow that the cache does not hold, panics in its handler after a miss is counted.
  pub handle_execution-unknown :
      (codec : Codec ExecutionRequest) (req : ExecutionRequest) (in_bytes : Bytes)
      (registry : VirtualNamespaceRegistry) (r : Request) (resolver : Resolver redis)
      → codec.marshal req ≡ some in_bytes
      → in_bytes ≢ []
      → redis.get resolver.cache.client (get_workflow_id req.execution) ≡ missing
      → Registry.resolve req.namespace registry ≡ none
      → handle_execution redis pb codec r (frame in_bytes) resolver registry
        ≡ crashed (after_miss resolver)
  unfolding handle_execution
  handle_execution-unknown codec req in_bytes registry r resolver encoded full cold unknown =
      read_message-frame redis codec req in_bytes r resolver _ encoded full
      ∙ resolve_and_rewrite_unknown codec _ _ registry r resolver cold unknown

  read_message_refuses :
      {M : Type 0} (codec : Codec M) (body_bytes : Bytes) (r : Request) (resolver : Resolver redis)
      (continue : M → Handled redis) (e : ProxyError)
      → extract_payload body_bytes ≡ err e
      → read_message redis codec body_bytes r resolver continue ≡ failed e r resolver
  unfolding read_message
  read_message_refuses codec body_bytes r resolver continue e bad = ground (arith, bad)

  -- A body that is not a frame is refused by each of the eight handlers with the error of
  -- extractPayload, and neither the request nor the resolver is touched.
  pub handlers-refuse :
      (body_bytes : Bytes) (registry : VirtualNamespaceRegistry) (r : Request)
      (resolver : Resolver redis) (e : ProxyError)
      → extract_payload body_bytes ≡ err e
      → (handle_start_workflow_execution redis pb r body_bytes resolver registry
          ≡ failed e r resolver)
        × (handle_respond_workflow_task_completed redis pb r body_bytes resolver registry
            ≡ failed e r resolver)
        × (handle_respond_activity_task_completed redis pb r body_bytes resolver registry
            ≡ failed e r resolver)
        × (handle_respond_query_task_completed redis pb r body_bytes resolver registry
            ≡ failed e r resolver)
        × (handle_cancel_workflow redis pb r body_bytes resolver registry ≡ failed e r resolver)
        × (handle_signal_workflow redis pb r body_bytes resolver registry ≡ failed e r resolver)
        × (handle_query_workflow redis pb r body_bytes resolver registry ≡ failed e r resolver)
        × (handle_get_workflow_execution_history redis pb r body_bytes resolver registry
            ≡ failed e r resolver)
  unfolding handle_start_workflow_execution handle_respond_workflow_task_completed
      handle_respond_activity_task_completed handle_respond_query_task_completed
      handle_cancel_workflow handle_signal_workflow handle_query_workflow
      handle_get_workflow_execution_history handle_execution
  handlers-refuse body_bytes registry r resolver e bad = (
    read_message_refuses pb.start_workflow_execution body_bytes r resolver _ e bad,
    read_message_refuses pb.respond_workflow_task_completed body_bytes r resolver _ e bad,
    read_message_refuses pb.respond_activity_task_completed body_bytes r resolver _ e bad,
    read_message_refuses pb.respond_query_task_completed body_bytes r resolver _ e bad,
    read_message_refuses pb.request_cancel_workflow_execution body_bytes r resolver _ e bad,
    read_message_refuses pb.signal_workflow_execution body_bytes r resolver _ e bad,
    read_message_refuses pb.query_workflow body_bytes r resolver _ e bad,
    read_message_refuses pb.get_workflow_execution_history body_bytes r resolver _ e bad,
  )
