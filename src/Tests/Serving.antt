-- ===== src/Tests/Serving.antt =====
-- A signal that is routed by the proxy, and a request that it cannot read.
use tempura.Common.{◌≡◌, refl, some, List, [], ◌∷◌, codes}
use tempura.Common.GoMap
use tempura.Common.Keys.{text_eq, string_key}
use tempura.Common.Strings.{contains_text, starts_with}
use tempura.Http.{Request, Response}
use tempura.Grpc.{payload_too_short, frame}
use tempura.Proxy.Routing.{after_hit}
use tempura.Proxy.Handlers.{get_workflow_id}
use tempura.ConnPark.{PollResult}
use tempura.Serve.{
  route, route_in, signal_workflow, forwards, serve, director, write_proxy_response,
}
use tempura.Serve.Dispatch.{serve-unreadable, serve-signal_pinned}
use tempura.Serve.Writing.{write_proxy_response-keeps}
use tempura.Tests.Base.{polynomial, server}
use tempura.Tests.Codecs.{no_gzip, protobuf}
use tempura.Tests.Polls.{two_clusters}
use tempura.Tests.Namespaces.{east}
use tempura.Tests.Requests.{
  call, warm, registry, signal, bytes_of, east_target, warm-IsPinned, east_parsed, short_refused,
}

abbrev in_order : List PollResult → List PollResult
in_order l = l

call_route : route call.path ≡ signal_workflow
unfolding route route_in contains_text starts_with
call_route = refl

abbrev short_call : Request
short_call = record call { body = some (0 ∷ 0 ∷ []) }

serve-unreadable_example :
    (serve server protobuf in_order short_call registry warm ≡ forwards short_call warm)
    × ((director (codes "localhost:7233") short_call).body ≡ some (0 ∷ 0 ∷ []))
    × ((director (codes "localhost:7233") short_call).url_host ≡ codes "localhost:7233")
serve-unreadable_example =
    serve-unreadable server protobuf in_order short_call registry warm (0 ∷ 0 ∷ [])
      payload_too_short (codes "localhost:7233") (rw call_route refl) refl short_refused

abbrev signal_call : Request
signal_call = record call { body = some (frame (bytes_of signal)) }

serve-signal_pinned_example :
    (sent : Request) × (serve server protobuf in_order signal_call registry warm
      ≡ forwards sent (after_hit warm))
    × ((director (codes "localhost:7233") sent).body
        ≡ some (frame (bytes_of (record signal { namespace = codes "east" }))))
    × ((director (codes "localhost:7233") sent).url_host ≡ codes "10.0.0.1:7233")
    × ((director (codes "localhost:7233") sent).host ≡ codes "10.0.0.1:7233")
unfolding get_workflow_id
serve-signal_pinned_example =
    serve-signal_pinned server protobuf in_order signal (bytes_of signal)
      (bytes_of (record signal { namespace = codes "east" })) registry signal_call warm east
      east_target (codes "localhost:7233") call_route refl refl (λ e. cc e) warm-IsPinned
      east_parsed refl

abbrev grpc_answer : Response
grpc_answer = record {
  status_code = 200;
  header = (codes "Content-Type", codes "application/grpc" ∷ []) ∷ [];
  body = some (0 ∷ []);
  trailer = (codes "Grpc-Status", codes "0" ∷ []) ∷ [];
}

write_proxy_response-keeps_example :
    (GoMap.get (write_proxy_response grpc_answer []).header (codes "Content-Type")
      ≡ GoMap.get grpc_answer.header (codes "Content-Type"))
    × ((write_proxy_response grpc_answer []).status_code ≡ 200)
    × ((write_proxy_response grpc_answer []).body ≡ some (0 ∷ []))
unfolding GoMap.get text_eq starts_with
write_proxy_response-keeps_example =
    write_proxy_response-keeps grpc_answer (codes "Content-Type") (refl, tt) refl refl
