-- ===== src/ConnPark/FirstTask.antt =====
-- connpark.go, the loop over the results of a poll: which response it answers with.
use mathlib.Core.Logic.{∥∥₁_elim}
use mathlib.Core.List.{Perm, Permᴰ}
use tempura.Common.{
  ◌≡◌, ◌≢◌, refl, ap, ◌∙◌, Bool, true, false, ◌||◌, Option, none, some, List, [], ◌∷◌, ◌++◌, arith,
  ℕ, Bytes, Text, if◌then◌else◌, Option-cases, inl, inr,
}
use tempura.Common.GoMap.{is_some}
use tempura.Common.Keys.{text_eq, text_eq_refl}
use tempura.Redis.{Redis, value}
use tempura.Mappings
use tempura.Resolver.{Resolver}
use tempura.Resolver.Sticky.{IsUp}
use tempura.Http.{Response}
use tempura.Grpc.{Gzip, ProxyError}
use tempura.Proxy.Messages.{Codec, PollResponse}
use tempura.ConnPark.{
  PollResult, got, failed, Polled, answered, task_in, cache_task, no_task, collect,
}

Bool-IsSet : IsSet Bool
Bool-IsSet = hlevel

module _ ⦃gzip : Gzip⦄ (codec : Codec PollResponse) where
  -- the task that a result brings
  unfoldable pub task_of : PollResult → Option PollResponse
  task_of (failed e phys_ns) = none
  task_of (got resp phys_ns) = elim resp.body [
    | none ↦ none
    | some bytes ↦ task_in codec resp.status_code bytes
  ]

  task_of_failed : (e : ProxyError) (phys_ns : Text) → task_of (failed e phys_ns) ≡ none
  unfolding task_of
  task_of_failed e phys_ns = refl

  task_in_lem :
      (status_code : ℕ) (bytes : Bytes) (task : PollResponse)
      → task_in codec status_code bytes ≡ some task
      → (status_code ≡ 200) × (task.task_token ≢ [])
  unfolding task_in
  task_in_lem status_code bytes task brings =
      (ground (arith, brings), λ e. ground (arith, brings, e))

  task_of-got :
      (resp : Response) (phys_ns : Text) (task : PollResponse)
      → task_of (got resp phys_ns) ≡ some task
      → (resp.status_code ≡ 200) × (task.task_token ≢ [])
  unfolding task_of
  task_of-got resp phys_ns task brings = elim (Option-cases resp.body) [
    | inl none_there ↦ cc (rw none_there at brings)
    | inr (bytes, at) ↦ task_in_lem resp.status_code bytes task (rw at at brings)
  ]

  unfoldable pub any_task : List PollResult → Bool
  any_task [] = false
  any_task (result ∷ results) = is_some (task_of result) || any_task results

  any_task_permᴰ : {a b : List PollResult} → Permᴰ a b → any_task a ≡ any_task b
  unfolding any_task
  any_task_permᴰ Permᴰ.nil = refl
  any_task_permᴰ (Permᴰ.cons e p) = ground (arith, e, any_task_permᴰ p)
  any_task_permᴰ (Permᴰ.swap e e') = ground (arith, e, e')
  any_task_permᴰ (Permᴰ.trans p q) = any_task_permᴰ p ∙ any_task_permᴰ q

  pub any_task_perm : {a b : List PollResult} → Perm a b → any_task a ≡ any_task b
  any_task_perm p = ∥∥₁_elim p (Bool-IsSet _ _) any_task_permᴰ

  -- the responses that could be read, in the order of arrival
  unfoldable pub last_readable : List PollResult → Option Response → Option Response
  last_readable [] last = last
  last_readable (failed e phys_ns ∷ results) last = last_readable results last
  last_readable (got resp phys_ns ∷ results) last =
      last_readable results (if is_some resp.body then some resp else last)

  module _ (redis : Redis) where
    -- the resolver after a task for that workflow came from that physical namespace: the cache
    -- holds the namespace, or a task that names no workflow left the resolver as it was
    abbrev pub Cached : Option Text → Text → Resolver redis → Resolver redis → Type 0
    Cached none phys_ns r left = left ≡ r
    Cached (some []) phys_ns r left = left ≡ r
    Cached (some (c ∷ workflow_id)) phys_ns r left =
        (IsUp redis left) × (redis.get left.cache.client (c ∷ workflow_id) ≡ value phys_ns)

    cache_task-Cached :
        (execution : Option Text) (phys_ns : Text) (r : Resolver redis)
        → IsUp redis r
        → Cached execution phys_ns r (cache_task redis execution phys_ns r)
    unfolding cache_task Mappings.put text_eq
    cache_task-Cached none phys_ns r up = refl
    cache_task-Cached (some []) phys_ns r up = refl
    cache_task-Cached (some (c ∷ workflow_id)) phys_ns r up =
        let key = c ∷ workflow_id in
        (
          redis.set_up r.cache.client key phys_ns up,
          redis.get-set r.cache.client key key phys_ns up ∙ rw (text_eq_refl key) refl,
        )

    -- `result` is the first in the list that brings a task, the answer is its response, and the
    -- resolver is left with the namespace of the task's workflow in the cache
    pub record FirstTask (results : List PollResult) (r : Resolver redis) (answer : Polled redis)
        : Type 0 where
      pub before : List PollResult
      pub resp : Response
      pub phys_ns : Text
      pub after : List PollResult
      pub task : PollResponse
      pub split : results ≡ before ++ (got resp phys_ns ∷ after)
      pub none_before : any_task before ≡ false
      pub brings : task_of (got resp phys_ns) ≡ some task
      pub status : resp.status_code ≡ 200
      pub token : task.task_token ≢ []
      pub left : Resolver redis
      pub answer_lem : answer ≡ answered resp left
      pub cached : Cached task.execution phys_ns r left

    collect_task :
        (resp : Response) (phys_ns : Text) (results : List PollResult) (last : Option Response)
        (r : Resolver redis) (task : PollResponse)
        → task_of (got resp phys_ns) ≡ some task
        → collect redis codec (got resp phys_ns ∷ results) last r
          ≡ answered resp (cache_task redis task.execution phys_ns r)
    unfolding collect task_of
    collect_task resp phys_ns results last r task h = ground arith

    collect_skip :
        (resp : Response) (phys_ns : Text) (results : List PollResult) (last : Option Response)
        (r : Resolver redis)
        → task_of (got resp phys_ns) ≡ none
        → collect redis codec (got resp phys_ns ∷ results) last r
          ≡ collect redis codec results (if is_some resp.body then some resp else last) r
    unfolding collect task_of
    collect_skip resp phys_ns results last r h = ground arith

    collect_failed :
        (e : ProxyError) (phys_ns : Text) (results : List PollResult) (last : Option Response)
        (r : Resolver redis)
        → collect redis codec (failed e phys_ns ∷ results) last r
          ≡ collect redis codec results last r
    unfolding collect
    collect_failed e phys_ns results last r = refl

    prepend :
        (result : PollResult) (results : List PollResult) (r : Resolver redis)
        (answer : Polled redis)
        → task_of result ≡ none
        → FirstTask results r answer
        → FirstTask (result ∷ results) r answer
    unfolding any_task
    prepend result results r answer h t = record {
      before = result ∷ t.before;
      resp = t.resp;
      phys_ns = t.phys_ns;
      after = t.after;
      task = t.task;
      split = ap (◌∷◌ result) t.split;
      none_before = ground (arith, h, t.none_before);
      brings = t.brings;
      status = t.status;
      token = t.token;
      left = t.left;
      answer_lem = t.answer_lem;
      cached = t.cached;
    }

    pub collect-FirstTask :
        (results : List PollResult) (last : Option Response) (r : Resolver redis)
        → IsUp redis r
        → any_task results ≡ true
        → FirstTask results r (collect redis codec results last r)
    unfolding any_task
    collect-FirstTask [] last r up h = cc
    collect-FirstTask (failed e phys_ns ∷ results) last r up h =
        rw (collect_failed e phys_ns results last r) (
          prepend (failed e phys_ns) results r _ (task_of_failed e phys_ns)
            (collect-FirstTask results last r up (rw (task_of_failed e phys_ns) at h)))
    collect-FirstTask (got resp phys_ns ∷ results) last r up h =
        elim (Option-cases (task_of (got resp phys_ns))) [
          | inl skipped ↦ rw (collect_skip resp phys_ns results last r skipped) (
              prepend (got resp phys_ns) results r _ skipped
                (collect-FirstTask results _ r up (ground (arith, skipped, h))))
          | inr (task, brings) ↦ record {
            before = [];
            resp = resp;
            phys_ns = phys_ns;
            after = results;
            task = task;
            split = refl;
            none_before = refl;
            brings = brings;
            status = (task_of-got resp phys_ns task brings).0;
            token = (task_of-got resp phys_ns task brings).1;
            left = cache_task redis task.execution phys_ns r;
            answer_lem = collect_task resp phys_ns results last r task brings;
            cached = cache_task-Cached task.execution phys_ns r up;
          }
        ]

    -- When no result has a task the poll answers with the last response that could be read, or
    -- else with an error, and leaves the resolver alone.
    pub collect-no_task :
        (results : List PollResult) (last : Option Response) (r : Resolver redis)
        → any_task results ≡ false
        → collect redis codec results last r ≡ no_task redis (last_readable results last) r
    unfolding any_task last_readable
    collect-no_task [] last r h = unfold collect in refl
    collect-no_task (failed e phys_ns ∷ results) last r h =
        collect_failed e phys_ns results last r
        ∙ collect-no_task results last r (rw (task_of_failed e phys_ns) at h)
    collect-no_task (got resp phys_ns ∷ results) last r h =
        let skipped : task_of (got resp phys_ns) ≡ none = ground arith in
        collect_skip resp phys_ns results last r skipped
        ∙ collect-no_task results (if is_some resp.body then some resp else last) r
            (ground (arith, h, skipped))
