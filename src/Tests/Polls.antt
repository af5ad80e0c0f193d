-- ===== src/Tests/Polls.antt =====
-- A poll of two clusters: the first has no task, the second has one.
use mathlib.Core.List.{Perm, map}
use mathlib.Core.List.Perm
use tempura.Common.{
  ◌≡◌, refl, true, false, some, none, List, [], ◌∷◌, Text, Bytes, codes, Option, drop,
  if◌then◌else◌,
}
use tempura.Common.Keys.{string_key}
use tempura.Common.Strings.{contains_text, starts_with, split, split_loop}
use tempura.Namespace.{parse_physical_namespace}
use tempura.VirtualNamespace.{VirtualNamespace, get_all_namespaces, namespace_active}
use tempura.Ring.{new_consistent_hash}
use tempura.Resolver.{Resolver}
use tempura.Http.{Request, Response, set_host, set_body, forget_length}
use tempura.Grpc.{frame, transport}
use tempura.Proxy.Messages.{PollRequest}
use tempura.ConnPark.{
  PollResult, got, failed, Transport, poll_request, sent, poll_single, poll_all, fan_out, task_in,
}
use tempura.ConnPark.FirstTask.{any_task, task_of, FirstTask}
use tempura.ConnPark.FanOut.{phys_ns_of, poll_all_total, fan_out-FirstTask}
use tempura.Tests.Base.{server}
use tempura.Tests.Codecs.{no_gzip, protobuf, poll_codec, response_codec, write_all}

abbrev pub order : Text
order = codes "order-17"

abbrev east : Text
east = codes "east::10.0.0.1:7233"

abbrev west : Text
west = codes "west::10.0.0.2:7233"

abbrev cold : Resolver server
cold = record {
  cache = record {
    client = record { up = true; entries = [] };
    cache_hit_count = 0;
    cache_miss_count = 0;
  };
  allocated = [];
}

-- a response whose message has the token, and the workflow of the example
abbrev pub answer : Bytes → Response
answer token = record {
  status_code = 200;
  header = [];
  body = some (frame (write_all (token ∷ [] ∷ order ∷ [])));
  trailer = [];
}

-- the cluster at 10.0.0.2 has a task, and no other
abbrev pub task_at_west : Request → Option Response
task_at_west r =
    if contains_text r.url_host (codes "0.0.2") then some (answer (1 ∷ [])) else some (answer [])

instance abbrev pub two_clusters : Transport
two_clusters = record { round_trip = task_at_west }

abbrev results : List PollResult
results = got (answer []) east ∷ got (answer (1 ∷ [])) west ∷ []

results_have : any_task response_codec results ≡ true
unfolding any_task task_of task_in frame drop
results_have = refl

no_results : any_task response_codec (got (answer []) east ∷ failed transport west ∷ []) ≡ false
unfolding any_task task_of task_in frame drop
no_results = refl

-- the last two results change places
abbrev swapped : List PollResult → List PollResult
swapped (a ∷ b ∷ l) = b ∷ a ∷ l
swapped l = l

swapped-Perm : (l : List PollResult) → Perm (swapped l) l
swapped-Perm [] = Perm.refl []
swapped-Perm (a ∷ []) = Perm.refl (a ∷ [])
swapped-Perm (a ∷ b ∷ l) = Perm.swap a b l

abbrev poll_call : Request
poll_call = record {
  method = codes "POST";
  path = codes "/PollWorkflowTaskQueue";
  scheme = [];
  url_host = [];
  host = codes "localhost:8088";
  request_uri = [];
  content_length = none;
  header = [];
  body = none;
}

abbrev poll : PollRequest
poll = record { namespace = codes "shop"; others = [] }

abbrev shop : VirtualNamespace
shop = record {
  name = codes "shop";
  ring = new_consistent_hash 50;
  namespaces = (east, namespace_active) ∷ (west, namespace_active) ∷ [];
}

poll_all_total_example :
    (results : List PollResult) × (poll_all poll_codec poll_call poll (east ∷ west ∷ [])
      ≡ some results)
    × (map phys_ns_of results ≡ east ∷ west ∷ [])
unfolding contains_text starts_with
poll_all_total_example =
    poll_all_total poll_codec poll_call poll (east ∷ west ∷ []) (refl, (refl, tt))

polled : poll_all poll_codec poll_call poll (get_all_namespaces shop) ≡ some results
unfolding poll_all poll_single sent poll_request parse_physical_namespace split split_loop
    contains_text starts_with get_all_namespaces set_host set_body forget_length
polled = refl

fan_out-FirstTask_example :
    FirstTask response_codec server
      (swapped results)
      cold
      (fan_out server protobuf swapped poll_codec response_codec poll_call poll (some shop) cold)
fan_out-FirstTask_example =
    fan_out-FirstTask server protobuf swapped swapped-Perm poll_codec response_codec poll_call poll
      shop cold results (refl, tt) polled results_have
