-- ===== src/Tests/Requests.antt =====
-- The resolver and the handlers at concrete inputs.
use tempura.Common.{
  ℕ, ◌^◌, ◌<◌, ◌≡◌, ◌≢◌, refl, true, false, some, none, List, [], ◌∷◌, ◌++◌, arith, length, Text,
  Bytes, codes, All, ◌⊎◌, if◌then◌else◌, ◌&&◌, inl, inr,
}
use tempura.Common.GoMap
use tempura.Common.Keys.{string_key, text_eq}
use tempura.Common.Result.{err}
use tempura.Common.Strings.{contains_text}
use tempura.Redis.{value, missing}
use tempura.Registry
use tempura.Registry.{VirtualNamespaceRegistry}
use tempura.Namespace.{Target, parse_physical_namespace}
use tempura.VirtualNamespace.{namespace_active}
use tempura.Resolver.{Payload, Resolver, resolve}
use tempura.Resolver.Sticky.{IsPinned, resolve_hit}
use tempura.Resolver.Guarantees.{resolve_all, resolve_sticky, resolve_new-active}
use tempura.Http.{Request, set_host, forget_length}
use tempura.TaskToken.{
  found, extract_workflow_id, scan, round, field, length_delimited, slice, uvarint, uvarint_loop,
}
use tempura.TaskToken.Termination.{backward_field}
use tempura.Grpc.{payload_too_short, extract_payload, frame}
use tempura.Proxy.Messages.{
  complete_workflow_execution, ExecutionRequest, RespondWorkflowTaskCompletedRequest,
  RespondActivityTaskCompletedRequest,
}
use tempura.Proxy.Handlers.{
  rewrote, get_workflow_id, handle_execution, handle_respond_workflow_task_completed,
}
use tempura.Proxy.Routing.{after_hit, handle_execution-pinned}
use tempura.Proxy.Completion.{completes, handle_respond_workflow_task_completed-pinned}
use tempura.Tests.Base.{polynomial, server}
use tempura.Tests.Codecs.{no_gzip, protobuf, execution_codec, write_all}
use tempura.Tests.Namespaces.{east, shop, shop-IsValid}

abbrev pub order : Text
order = codes "order-17"

abbrev order_payload : Payload
order_payload = record { workflow_id = order; virtual_namespace = codes "shop" }

abbrev pub registry : VirtualNamespaceRegistry
registry = record { namespaces = (codes "shop", shop) ∷ [] }

-- the cache holds the order, as no other namespace would be chosen
abbrev pub cold : Resolver server
cold = record {
  cache = record {
    client = record { up = true; entries = [] };
    cache_hit_count = 0;
    cache_miss_count = 0;
  };
  allocated = [];
}

abbrev pub warm : Resolver server
warm = record {
  cache = record {
    client = record { up = true; entries = (order, east) ∷ [] };
    cache_hit_count = 0;
    cache_miss_count = 0;
  };
  allocated = [];
}

order_held : server.get warm.cache.client order ≡ value east
unfolding GoMap.get text_eq
order_held = refl

order_new : server.get cold.cache.client order ≡ missing
unfolding GoMap.get
order_new = refl

pub warm-IsPinned : IsPinned server warm order east
unfolding GoMap.get
warm-IsPinned = record { up = (refl, (refl, tt)); held = order_held; named = λ e. cc e }

shop_known : Registry.resolve (codes "shop") registry ≡ some shop
unfolding Registry.resolve GoMap.get text_eq
shop_known = refl

warm_hit : resolve server order_payload registry warm ≡ ((east, true), after_hit warm)
warm_hit = resolve_hit server order_payload registry warm east order_held (λ e. cc e)

resolve_sticky_example :
    (resolve server order_payload registry (
      resolve_all server
        ((order_payload, registry) ∷ [])
        (resolve server order_payload registry warm).1)).0
    ≡ ((resolve server order_payload registry warm).0.0, true)
resolve_sticky_example =
    resolve_sticky server order_payload order_payload registry registry warm
      ((order_payload, registry) ∷ []) (refl, (unfold GoMap.get in refl, tt))
      (rw warm_hit (λ e. cc e)) refl

resolve_new-active_example :
    ((resolve server order_payload registry cold).0.1 ≡ false)
    × (((length shop.ring.ring ≡ 0) × ((resolve server order_payload registry cold).0.0 ≡ []))
        ⊎ (GoMap.get shop.namespaces (resolve server order_payload registry cold).0.0
            ≡ some namespace_active))
resolve_new-active_example =
    resolve_new-active server order_payload registry cold shop order_new shop_known shop-IsValid

abbrev pub call : Request
call = record {
  method = codes "POST";
  path = codes "/temporal.api.workflowservice.v1.WorkflowService/SignalWorkflowExecution";
  scheme = [];
  url_host = [];
  host = codes "localhost:8088";
  request_uri = [];
  content_length = some 20;
  header = [];
  body = none;
}

abbrev pub signal : ExecutionRequest
signal = record { namespace = codes "shop"; execution = some order; others = [] }

abbrev pub east_target : Target
east_target = record { name = codes "east"; address = codes "10.0.0.1:7233" }

pub east_parsed : parse_physical_namespace east ≡ some east_target
unfolding parse_physical_namespace tempura.Common.Strings.split
east_parsed = refl

abbrev pub bytes_of : ExecutionRequest → Bytes
bytes_of m = write_all (m.namespace ∷ m.others ∷ order ∷ [])

handle_execution-pinned_example :
    handle_execution server protobuf execution_codec call (frame (bytes_of signal)) warm registry
    ≡ rewrote
        (frame (bytes_of (record signal { namespace = codes "east" })))
        (forget_length (set_host (codes "10.0.0.1:7233") call))
        (after_hit warm)
unfolding get_workflow_id
handle_execution-pinned_example =
    handle_execution-pinned server protobuf execution_codec signal (bytes_of signal)
      (bytes_of (record signal { namespace = codes "east" })) registry call warm east east_target
      refl (λ e. cc e) warm-IsPinned east_parsed refl

abbrev no_registry : VirtualNamespaceRegistry
no_registry = record { namespaces = [] }

shop_unknown : Registry.resolve (codes "shop") no_registry ≡ none
unfolding Registry.resolve GoMap.get
shop_unknown = refl

pub short_refused : extract_payload (0 ∷ 0 ∷ []) ≡ err payload_too_short
unfolding extract_payload
short_refused = refl

-- field 2 of the token is the workflow id
abbrev order_token : Bytes
order_token = 0x12 ∷ 8 ∷ order

abbrev completion : RespondWorkflowTaskCompletedRequest
completion = record {
  namespace = codes "shop";
  task_token = order_token;
  resource_id = [];
  commands = complete_workflow_execution ∷ [];
  others = [];
}

token_found : extract_workflow_id order_token ≡ found order
unfolding extract_workflow_id scan round field length_delimited slice uvarint uvarint_loop
    tempura.Common.drop tempura.Common.take
token_found = refl

abbrev completion_bytes : Text → Bytes
completion_bytes ns = write_all (ns ∷ order_token ∷ [] ∷ (0 ∷ []) ∷ [] ∷ [])

handle_respond_workflow_task_completed-pinned_example :
    (left : Resolver server) × (handle_respond_workflow_task_completed server protobuf call
        (frame (completion_bytes (codes "shop")))
        warm
        registry
      ≡ rewrote
          (frame (completion_bytes (codes "east")))
          (forget_length (set_host (codes "10.0.0.1:7233") call))
          left)
    × (server.get left.cache.client order
        ≡ (if completes (complete_workflow_execution ∷ []) then missing else value east))
handle_respond_workflow_task_completed-pinned_example =
    handle_respond_workflow_task_completed-pinned server protobuf completion
      (completion_bytes (codes "shop")) (completion_bytes (codes "east")) registry call warm order
      east east_target refl (λ e. cc e) token_found (λ e. cc e) warm-IsPinned east_parsed refl

abbrev stuck : RespondActivityTaskCompletedRequest
stuck = record {
  namespace = codes "shop";
  task_token = backward_field;
  resource_id = [];
  others = [];
}

abbrev stuck_bytes : Bytes
stuck_bytes = write_all (codes "shop" ∷ backward_field ∷ [] ∷ [] ∷ [])
