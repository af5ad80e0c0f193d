-- ===== src/Proxy/Completion.antt =====
-- proxy.go: completed tasks, the routing cache, and task tokens.
use tempura.Common.{
  ◌++◌, suc, length, ◌≡◌, ◌≢◌, ◌∙◌, refl, Bool, true, false, some, List, [], ◌∷◌, arith, Bytes,
  Text, if◌then◌else◌, ◌&&◌,
}
use tempura.Common.Keys.{text_eq, text_eq_iff}
use tempura.Redis.{Redis, value, missing}
use tempura.Mappings
use tempura.Ring.Hash.{Murmur3}
use tempura.Namespace.{Target, parse_physical_namespace}
use tempura.Registry.{VirtualNamespaceRegistry}
use tempura.Resolver.{Resolver}
use tempura.Resolver.Sticky.{IsUp, IsPinned, resolve_hit}
use tempura.TaskToken.{found, running, extract_workflow_id}
use tempura.TaskToken.Termination.{backward_field, scan-backward}
use tempura.Http.{Request, set_host, forget_length}
use tempura.Grpc.{Gzip, frame}
use tempura.Proxy.Messages.{
  CommandType, complete_workflow_execution, other_command, RespondWorkflowTaskCompletedRequest,
  RespondActivityTaskCompletedRequest, Protobuf,
}
use tempura.Proxy.Handlers.{
  Handled, rewrote, hangs, delete_completed, handle_respond_workflow_task_completed,
  handle_respond_activity_task_completed, token_id, id_or, with_token_id,
}
use tempura.Proxy.Routing.{read_message-frame, rewrite_target_at, after_hit}

-- a command that completes the workflow
unfoldable pub completes : List CommandType → Bool
completes [] = false
completes (complete_workflow_execution ∷ commands) = true
completes (other_command n ∷ commands) = completes commands

module _ (redis : Redis) where
  delete_completed-IsUp :
      (commands : List CommandType) (w : Text) (r : Resolver redis)
      → IsUp redis r
      → IsUp redis (delete_completed redis commands w r)
  unfolding delete_completed Mappings.delete
  delete_completed-IsUp [] w r up = up
  delete_completed-IsUp (complete_workflow_execution ∷ commands) w r up =
      delete_completed-IsUp commands w _ (redis.del_up r.cache.client w up)
  delete_completed-IsUp (other_command n ∷ commands) w r up = delete_completed-IsUp commands w r up

  delete_completed_missing :
      (commands : List CommandType) (w : Text) (r : Resolver redis)
      → IsUp redis r
      → redis.get r.cache.client w ≡ missing
      → redis.get (delete_completed redis commands w r).cache.client w ≡ missing
  unfolding delete_completed Mappings.delete
  delete_completed_missing [] w r up gone = gone
  delete_completed_missing (complete_workflow_execution ∷ commands) w r up gone =
      delete_completed_missing commands w _ (redis.del_up r.cache.client w up)
        (rw (redis.get-del r.cache.client w w up) (ground (arith, text_eq_iff w w)))
  delete_completed_missing (other_command n ∷ commands) w r up gone =
      delete_completed_missing commands w r up gone

  -- While the Redis server answers, the commands of a completed task remove the workflow from the
  -- cache exactly if one of them completes it, and leave every other workflow as it was.
  pub delete_completed_get :
      (commands : List CommandType) (w j : Text) (r : Resolver redis)
      → IsUp redis r
      → redis.get (delete_completed redis commands w r).cache.client j
        ≡ (if completes commands && text_eq w j then missing else redis.get r.cache.client j)
  unfolding delete_completed completes Mappings.delete
  delete_completed_get [] w j r up = refl
  delete_completed_get (complete_workflow_execution ∷ commands) w j r up =
      delete_completed_get commands w j _ (redis.del_up r.cache.client w up)
      ∙ ground (arith, redis.get-del r.cache.client w j up)
  delete_completed_get (other_command n ∷ commands) w j r up =
      delete_completed_get commands w j r up

module _ (redis : Redis) ⦃murmur3 : Murmur3⦄ ⦃gzip : Gzip⦄ (pb : Protobuf) where
  id_or_found : (fallback w : Text) → w ≢ [] → id_or fallback (found w) ≡ token_id w
  unfolding id_or
  id_or_found fallback w named = ground (arith, text_eq_iff w [])

  with_token_id_found :
      (fallback w : Text) (token : Bytes) (resolver : Resolver redis)
      (continue : Text → Handled redis)
      → extract_workflow_id token ≡ found w
      → w ≢ []
      → with_token_id redis (id_or fallback (extract_workflow_id token)) resolver continue
        ≡ continue w
  unfolding with_token_id
  with_token_id_found fallback w token resolver continue e named =
      rw (e, id_or_found fallback w named)

  -- A completed workflow task whose token names a pinned workflow, in a frame of an encoded
  -- message, is rewritten for the cluster of that workflow if the new message can be encoded, and
  -- the cache holds the workflow afterwards unless a command completes it.
  pub handle_respond_workflow_task_completed-pinned :
      (req : RespondWorkflowTaskCompletedRequest) (in_bytes out_bytes : Bytes)
      (registry : VirtualNamespaceRegistry) (r : Request) (resolver : Resolver redis) (w ns : Text)
      (target : Target)
      → pb.respond_workflow_task_completed.marshal req ≡ some in_bytes
      → in_bytes ≢ []
      → extract_workflow_id req.task_token ≡ found w
      → w ≢ []
      → IsPinned redis resolver w ns
      → parse_physical_namespace ns ≡ some target
      → pb.respond_workflow_task_completed.marshal (record req { namespace = target.name })
        ≡ some out_bytes
      → (left : Resolver redis) × (handle_respond_workflow_task_completed redis pb r
            (frame in_bytes)
            resolver
            registry
          ≡ rewrote (frame out_bytes) (forget_length (set_host target.address r)) left)
        × (redis.get left.cache.client w ≡ (if completes req.commands then missing else value ns))
  unfolding handle_respond_workflow_task_completed
  handle_respond_workflow_task_completed-pinned req in_bytes out_bytes registry r resolver w ns
        target encoded full token named pinned parsed encoded' =
      (
        delete_completed redis req.commands w (after_hit resolver),
        read_message-frame redis pb.respond_workflow_task_completed req in_bytes r resolver _
              encoded full
            ∙ with_token_id_found req.resource_id w req.task_token resolver _ token named
            ∙ rw
                (resolve_hit redis (record { workflow_id = w; virtual_namespace = req.namespace })
                  registry resolver ns pinned.held pinned.named)
                (rewrite_target_at redis pb.respond_workflow_task_completed _ ns r _ target
                  out_bytes parsed encoded'),
        delete_completed_get redis req.commands w w (after_hit resolver) pinned.up
            ∙ ground (arith, text_eq_iff w w, pinned.held),
      )

  -- A completed activity task whose token begins with a field 1 of 2 ^ 64 - 11 bytes, in a frame
  -- of an encoded message, never comes back from its handler.
  pub handle_respond_activity_task_completed-hangs :
      (req : RespondActivityTaskCompletedRequest) (in_bytes rest : Bytes)
      (registry : VirtualNamespaceRegistry) (r : Request) (resolver : Resolver redis)
      → pb.respond_activity_task_completed.marshal req ≡ some in_bytes
      → in_bytes ≢ []
      → req.task_token ≡ backward_field ++ rest
      → handle_respond_activity_task_completed redis pb r (frame in_bytes) resolver registry ≡ hangs
  unfolding handle_respond_activity_task_completed id_or with_token_id extract_workflow_id
  handle_respond_activity_task_completed-hangs req in_bytes rest registry r resolver encoded full
        token =
      let stuck : extract_workflow_id req.task_token ≡ running =
        rw token (scan-backward rest (suc (length (backward_field ++ rest)))) in
      read_message-frame redis pb.respond_activity_task_completed req in_bytes r resolver _ encoded
        full
      ∙ rw stuck refl
