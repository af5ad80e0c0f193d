-- ===== src/Serve/Dispatch.antt =====
-- proxy.go: where the handler of NewStickyProxy lets a request go.
use tempura.Common.{
  ◌≡◌, ◌≢◌, ◌∙◌, refl, true, false, Bool, Option, some, List, [], ◌∷◌, ◌++◌, arith, Bytes, Text,
  codes, ap, sym, Bool-cases, inl, inr,
}
use tempura.Common.Keys.{text_eq}
use tempura.Common.Result.{err}
use tempura.Common.Strings.{contains_text, starts_with}
use tempura.Redis.{Redis}
use tempura.Ring.Hash.{Murmur3}
use tempura.Namespace.{Target, parse_physical_namespace}
use tempura.Registry.{VirtualNamespaceRegistry}
use tempura.Resolver.{Resolver}
use tempura.Resolver.Sticky.{IsPinned}
use tempura.Http.{Request, set_host, set_body, forget_length}
use tempura.Grpc.{Gzip, ProxyError, extract_payload, frame}
use tempura.Proxy.Messages.{ExecutionRequest, Protobuf}
use tempura.Proxy.Handlers.{
  Handled, failed, get_workflow_id, handle_start_workflow_execution,
  handle_respond_workflow_task_completed, handle_respond_activity_task_completed,
  handle_respond_query_task_completed, handle_cancel_workflow, handle_signal_workflow,
  handle_query_workflow, handle_get_workflow_execution_history,
}
use tempura.Proxy.Routing.{after_hit, handlers-refuse, handle_execution-pinned}
use tempura.ConnPark.{Transport, PollResult}
use tempura.Serve.{
  Route, start_workflow, poll_workflow_task, poll_activity_task, respond_workflow_task,
  respond_activity_task, cancel_workflow, workflow_history, signal_workflow, query_workflow,
  respond_query_task, pass_through, route_in, route, later_chain, forwards, forward_handled,
  with_body, serve_route, serve, director,
}

contains-prefix :
    (before s sub : Text) → contains_text s sub ≡ true → contains_text (before ++ s) sub ≡ true
unfolding contains_text
contains-prefix [] s sub h = h
contains-prefix (c ∷ before) s sub h = ground (arith, contains-prefix before s sub h)

route_in_first :
    (name path : Text) (first : Route) (more : List (Text × Route))
    → contains_text path name ≡ true
    → route_in ((name, first) ∷ more) path ≡ first
unfolding route_in
route_in_first name path first more here = rw here

signal_with_start_contains :
    contains_text (codes "SignalWithStartWorkflowExecution") (codes "StartWorkflowExecution") ≡ true
unfolding contains_text starts_with
signal_with_start_contains = refl

-- A path that ends in SignalWithStartWorkflowExecution is routed to the handler of
-- StartWorkflowExecution.
pub route-signal_with_start :
    (service : Text) → route (service ++ codes "SignalWithStartWorkflowExecution") ≡ start_workflow
unfolding route
route-signal_with_start service =
    let path = service ++ codes "SignalWithStartWorkflowExecution" in
    route_in_first (codes "StartWorkflowExecution") path start_workflow later_chain (
      contains-prefix service (codes "SignalWithStartWorkflowExecution")
        (codes "StartWorkflowExecution") signal_with_start_contains)

-- the routes whose requests are rewritten
abbrev pub rewrites : Route → Bool
rewrites poll_workflow_task = false
rewrites poll_activity_task = false
rewrites pass_through = false
rewrites start_workflow = true
rewrites respond_workflow_task = true
rewrites respond_activity_task = true
rewrites cancel_workflow = true
rewrites workflow_history = true
rewrites signal_workflow = true
rewrites query_workflow = true
rewrites respond_query_task = true

set_body_same :
    (r : Request) (body_bytes : Bytes) → r.body ≡ some body_bytes → set_body body_bytes r ≡ r
unfolding set_body
set_body_same r body_bytes at = ap (λ (o : Option Bytes). record r { body = o }) (sym at)

-- where a request with a host goes, and where one without
abbrev pub destination : Text → Text → Text
destination default_host [] = default_host
destination default_host (c ∷ host) = c ∷ host

director_to :
    (default_host host : Text) (r : Request)
    → r.url_host ≡ host
    → (director default_host r).url_host ≡ destination default_host host
unfolding director set_host text_eq
director_to default_host [] r at = rw at refl
director_to default_host (c ∷ host) r at = rw at refl

director_host :
    (default_host host : Text) (r : Request)
    → r.url_host ≡ host
    → r.host ≡ host
    → (director default_host r).host ≡ destination default_host host
unfolding director set_host text_eq
director_host default_host [] r at named = rw at refl
director_host default_host (c ∷ host) r at named = rw at named

director_body : (default_host : Text) (r : Request) → (director default_host r).body ≡ r.body
unfolding director set_host
director_body default_host r = elim (Bool-cases (text_eq r.url_host [])) [
  | inl blank ↦ rw blank refl
  | inr full ↦ rw full refl
]

director-sends :
    (default_host : Text) (r : Request)
    → ((director default_host r).body ≡ r.body)
      × ((director default_host r).url_host ≡ destination default_host r.url_host)
director-sends default_host r =
    (director_body default_host r, director_to default_host r.url_host r refl)

module _ (redis : Redis) where
  with_body_at :
      (r : Request) (resolver : Resolver redis) (handle : Request → Bytes → Handled redis)
      (body_bytes : Bytes)
      → r.body ≡ some body_bytes
      → with_body redis r resolver handle ≡ forward_handled redis body_bytes (handle r body_bytes)
  unfolding with_body
  with_body_at r resolver handle body_bytes at = ground (arith, at)

  with_body_failed :
      (r : Request) (resolver : Resolver redis) (handle : Request → Bytes → Handled redis)
      (body_bytes : Bytes) (e : ProxyError)
      → r.body ≡ some body_bytes
      → handle r body_bytes ≡ failed e r resolver
      → with_body redis r resolver handle ≡ forwards r resolver
  unfolding forward_handled
  with_body_failed r resolver handle body_bytes e at bad =
      with_body_at r resolver handle body_bytes at
      ∙ rw bad (ap (λ (q : Request). forwards q resolver) (set_body_same r body_bytes at))

module _ (redis : Redis) ⦃murmur3 : Murmur3⦄ ⦃gzip : Gzip⦄ ⦃wire : Transport⦄ (pb : Protobuf)
    (arrive : List PollResult → List PollResult) where
  serve_route_refused :
      (rt : Route) (r : Request) (registry : VirtualNamespaceRegistry) (resolver : Resolver redis)
      (body_bytes : Bytes) (e : ProxyError)
      → rewrites rt ≡ true
      → r.body ≡ some body_bytes
      → extract_payload body_bytes ≡ err e
      → serve_route redis pb arrive rt r registry resolver ≡ forwards r resolver
  unfolding serve_route
  serve_route_refused start_workflow r registry resolver body_bytes e rewritten at bad =
      with_body_failed redis r resolver
        (λ q b. handle_start_workflow_execution redis pb q b resolver registry) body_bytes e at
        (handlers-refuse redis pb body_bytes registry r resolver e bad).0
  serve_route_refused respond_workflow_task r registry resolver body_bytes e rewritten at bad =
      with_body_failed redis r resolver
        (λ q b. handle_respond_workflow_task_completed redis pb q b resolver registry) body_bytes e
        at (handlers-refuse redis pb body_bytes registry r resolver e bad).1
  serve_route_refused respond_activity_task r registry resolver body_bytes e rewritten at bad =
      with_body_failed redis r resolver
        (λ q b. handle_respond_activity_task_completed redis pb q b resolver registry) body_bytes e
        at (handlers-refuse redis pb body_bytes registry r resolver e bad).2
  serve_route_refused respond_query_task r registry resolver body_bytes e rewritten at bad =
      with_body_failed redis r resolver
        (λ q b. handle_respond_query_task_completed redis pb q b resolver registry) body_bytes e at
        (handlers-refuse redis pb body_bytes registry r resolver e bad).3
  serve_route_refused cancel_workflow r registry resolver body_bytes e rewritten at bad =
      with_body_failed redis r resolver
        (λ q b. handle_cancel_workflow redis pb q b resolver registry) body_bytes e at
        (handlers-refuse redis pb body_bytes registry r resolver e bad).4
  serve_route_refused signal_workflow r registry resolver body_bytes e rewritten at bad =
      with_body_failed redis r resolver
        (λ q b. handle_signal_workflow redis pb q b resolver registry) body_bytes e at
        (handlers-refuse redis pb body_bytes registry r resolver e bad).5
  serve_route_refused query_workflow r registry resolver body_bytes e rewritten at bad =
      with_body_failed redis r resolver
        (λ q b. handle_query_workflow redis pb q b resolver registry) body_bytes e at
        (handlers-refuse redis pb body_bytes registry r resolver e bad).6
  serve_route_refused workflow_history r registry resolver body_bytes e rewritten at bad =
      with_body_failed redis r resolver
        (λ q b. handle_get_workflow_execution_history redis pb q b resolver registry) body_bytes e
        at (handlers-refuse redis pb body_bytes registry r resolver e bad).7
  serve_route_refused poll_workflow_task r registry resolver body_bytes e rewritten at bad = cc
  serve_route_refused poll_activity_task r registry resolver body_bytes e rewritten at bad = cc
  serve_route_refused pass_through r registry resolver body_bytes e rewritten at bad = cc

  -- A request to a handler that rewrites, whose body is not a frame, is given to the reverse proxy
  -- as it came with the resolver untouched, and leaves with its body for its own host, or for the
  -- default target if it had none.
  pub serve-unreadable :
      (r : Request) (registry : VirtualNamespaceRegistry) (resolver : Resolver redis)
      (body_bytes : Bytes) (e : ProxyError) (default_host : Text)
      → rewrites (route r.path) ≡ true
      → r.body ≡ some body_bytes
      → extract_payload body_bytes ≡ err e
      → (serve redis pb arrive r registry resolver ≡ forwards r resolver)
        × ((director default_host r).body ≡ some body_bytes)
        × ((director default_host r).url_host ≡ destination default_host r.url_host)
  unfolding serve
  serve-unreadable r registry resolver body_bytes e default_host rewritten at bad = (
    serve_route_refused (route r.path) r registry resolver body_bytes e rewritten at bad,
    (director-sends default_host r).0 ∙ at,
    (director-sends default_host r).1,
  )

  -- A signal for a pinned workflow, in a frame of an encoded message, is given to the reverse
  -- proxy with the new message in its body, if that can be encoded, and leaves with that body for
  -- the address that the physical namespace names, or for the default target if that address is
  -- empty.
  pub serve-signal_pinned :
      (req : ExecutionRequest) (in_bytes out_bytes : Bytes) (registry : VirtualNamespaceRegistry)
      (r : Request) (resolver : Resolver redis) (ns : Text) (target : Target) (default_host : Text)
      → route r.path ≡ signal_workflow
      → r.body ≡ some (frame in_bytes)
      → pb.signal_workflow_execution.marshal req ≡ some in_bytes
      → in_bytes ≢ []
      → IsPinned redis resolver (get_workflow_id req.execution) ns
      → parse_physical_namespace ns ≡ some target
      → pb.signal_workflow_execution.marshal (record req { namespace = target.name })
        ≡ some out_bytes
      → (sent : Request) × (serve redis pb arrive r registry resolver
          ≡ forwards sent (after_hit resolver))
        × ((director default_host sent).body ≡ some (frame out_bytes))
        × ((director default_host sent).url_host ≡ destination default_host target.address)
        × ((director default_host sent).host ≡ destination default_host target.address)
  unfolding serve serve_route forward_handled handle_signal_workflow set_body forget_length set_host
  serve-signal_pinned req in_bytes out_bytes registry r resolver ns target default_host at body
        encoded full pinned parsed encoded' =
      (
        set_body (frame out_bytes) (forget_length (set_host target.address r)),
        rw at (
            with_body_at redis r resolver
              (λ q b. handle_signal_workflow redis pb q b resolver registry) (frame in_bytes) body
            ∙ rw
                (handle_execution-pinned redis pb pb.signal_workflow_execution req in_bytes
                  out_bytes registry r resolver ns target encoded full pinned parsed encoded')
                refl),
        (director-sends default_host _).0,
        (director-sends default_host _).1,
        director_host default_host target.address _ refl refl,
      )
