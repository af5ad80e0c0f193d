-- ===== src/ConnPark/FanOut.antt =====
-- connpark.go, the fan-out: pollSingleCluster, the goroutines, and the answer of ExecutePoll.
use mathlib.Core.List.{Perm, map}
use tempura.Common.{
  ◌≡◌, refl, ◌∙◌, true, false, Option, none, some, List, [], ◌∷◌, arith, Bytes, Text, All,
  Option-cases, inl, inr, ◌⊎◌,
}
use tempura.Common.Strings.{contains_text}
use tempura.Redis.{Redis}
use tempura.Namespace.{Target, delim, parse_physical_namespace, build_physical_namespace}
use tempura.Namespace.Parse.{IsPlain, parse-build, parse_panics}
use tempura.VirtualNamespace.{VirtualNamespace, get_all_namespaces}
use tempura.Resolver.{Resolver}
use tempura.Resolver.Sticky.{IsUp}
use tempura.Http.{Request, Response}
use tempura.Grpc.{Gzip, unencodable_message}
use tempura.Proxy.Messages.{Codec, PollRequest, PollResponse, Protobuf}
use tempura.ConnPark.{
  PollResult, got, failed, Transport, collect, poll_request, sent, poll_single, poll_all, fan_out,
}
use tempura.ConnPark.FirstTask.{any_task, any_task_perm, FirstTask, collect-FirstTask}

-- the namespace that a result came from
abbrev pub phys_ns_of : PollResult → Text
phys_ns_of (got resp phys_ns) = phys_ns
phys_ns_of (failed e phys_ns) = phys_ns

abbrev pub HasDelim : Text → Type 0
HasDelim phys_ns = contains_text phys_ns delim ≡ true

List-cases : (l : List Text) → (l ≡ []) ⊎ ((a : Text) × (more : List Text) × (l ≡ a ∷ more))
List-cases [] = inl refl
List-cases (a ∷ more) = inr (a, more, refl)

module _ ⦃wire : Transport⦄ (codec : Codec PollRequest) (original_req : Request)
    (req_struct : PollRequest) where
  poll_single_at :
      (phys_ns : Text) (ns : Target) (b : Bytes)
      → parse_physical_namespace phys_ns ≡ some ns
      → codec.marshal (record req_struct { namespace = ns.name }) ≡ some b
      → poll_single codec original_req req_struct phys_ns
        ≡ some (sent (wire.round_trip (poll_request original_req ns.address b)) phys_ns)
  unfolding poll_single
  poll_single_at phys_ns ns b parsed encoded = ground (arith, parsed, encoded)

  -- A physical namespace that buildPhysicalNamespace wrote from a plain name and an address
  -- without a delimiter is polled under that name at that address, if the request can be encoded.
  pub poll_single-build :
      (name address : Text) (b : Bytes)
      → IsPlain name
      → contains_text address delim ≡ false
      → codec.marshal (record req_struct { namespace = name }) ≡ some b
      → poll_single codec original_req req_struct (build_physical_namespace name address)
        ≡ some (
            sent
              (wire.round_trip (poll_request original_req address b))
              (build_physical_namespace name address))
  poll_single-build name address b plain whole encoded =
      poll_single_at (build_physical_namespace name address)
        (record { name = name; address = address }) b (parse-build name address plain whole) encoded

  sent_from :
      (answer : Option Response) (phys_ns : Text) → phys_ns_of (sent answer phys_ns) ≡ phys_ns
  unfolding sent
  sent_from none phys_ns = refl
  sent_from (some resp) phys_ns = refl

  poll_single_unencodable :
      (phys_ns : Text) (ns : Target)
      → parse_physical_namespace phys_ns ≡ some ns
      → codec.marshal (record req_struct { namespace = ns.name }) ≡ none
      → poll_single codec original_req req_struct phys_ns
        ≡ some (failed unencodable_message phys_ns)
  unfolding poll_single
  poll_single_unencodable phys_ns ns parsed encoded = ground (arith, parsed, encoded)

  poll_single_total :
      (phys_ns : Text)
      → HasDelim phys_ns
      → (result : PollResult) × (poll_single codec original_req req_struct phys_ns ≡ some result)
        × (phys_ns_of result ≡ phys_ns)
  poll_single_total phys_ns has = elim (Option-cases (parse_physical_namespace phys_ns)) [
    | inl lost ↦ cc (has, (parse_panics phys_ns).0 lost)
    | inr (ns, parsed) ↦
        elim (Option-cases (codec.marshal (record req_struct { namespace = ns.name }))) [
          | inl bad ↦ (
            failed unencodable_message phys_ns,
            poll_single_unencodable phys_ns ns parsed bad,
            refl,
          )
          | inr (b, encoded) ↦ (
            sent (wire.round_trip (poll_request original_req ns.address b)) phys_ns,
            poll_single_at phys_ns ns b parsed encoded,
            sent_from _ phys_ns,
          )
        ]
  ]

  -- When every physical namespace has a delimiter none of the polling goroutines panics, and there
  -- is one result for each namespace, under its name and in its order.
  pub poll_all_total :
      (slots : List Text)
      → All HasDelim slots
      → (results : List PollResult) × (poll_all codec original_req req_struct slots ≡ some results)
        × (map phys_ns_of results ≡ slots)
  unfolding poll_all
  poll_all_total [] has = ([], refl, refl)
  poll_all_total (phys_ns ∷ slots) (has, more) =
      let (result, e, from) = poll_single_total phys_ns has in
      let (results, es, froms) = poll_all_total slots more in
      (result ∷ results, ground (arith, e, es), ground (arith, from, froms))

module _ (redis : Redis) ⦃gzip : Gzip⦄ ⦃wire : Transport⦄ (pb : Protobuf)
    (arrive : List PollResult → List PollResult)
    (any_order : (l : List PollResult) → Perm (arrive l) l) where
  fan_out_at :
      (req_codec : Codec PollRequest) (resp_codec : Codec PollResponse) (original_req : Request)
      (req_struct : PollRequest) (v : VirtualNamespace) (r : Resolver redis) (slot : Text)
      (slots : List Text) (results : List PollResult)
      → get_all_namespaces v ≡ slot ∷ slots
      → poll_all req_codec original_req req_struct (slot ∷ slots) ≡ some results
      → fan_out redis pb arrive req_codec resp_codec original_req req_struct (some v) r
        ≡ collect redis resp_codec (arrive results) none r
  unfolding fan_out
  fan_out_at req_codec resp_codec original_req req_struct v r slot slots results shape polled =
      ground (arith, shape, polled)

  poll_all_none :
      (req_codec : Codec PollRequest) (resp_codec : Codec PollResponse) (original_req : Request)
      (req_struct : PollRequest) (results : List PollResult)
      → poll_all req_codec original_req req_struct [] ≡ some results
      → any_task resp_codec results ≡ false
  unfolding poll_all any_task
  poll_all_none req_codec resp_codec original_req req_struct [] polled = refl
  poll_all_none req_codec resp_codec original_req req_struct (result ∷ results) polled = cc polled

  -- When the clusters of a virtual namespace were polled and one of them has a task, while the
  -- Redis server answers, the poll answers with the first task that arrives, in whatever order the
  -- results arrive: a response of status 200 with a task whose token is not empty. Afterwards the
  -- cache holds the namespace that the task came from under the id of its workflow, if the task
  -- names one, and else the resolver is as it was.
  pub fan_out-FirstTask :
      (req_codec : Codec PollRequest) (resp_codec : Codec PollResponse) (original_req : Request)
      (req_struct : PollRequest) (v : VirtualNamespace) (r : Resolver redis)
      (results : List PollResult)
      → IsUp redis r
      → poll_all req_codec original_req req_struct (get_all_namespaces v) ≡ some results
      → any_task resp_codec results ≡ true
      → FirstTask resp_codec redis
          (arrive results)
          r
          (fan_out redis pb arrive req_codec resp_codec original_req req_struct (some v) r)
  fan_out-FirstTask req_codec resp_codec original_req req_struct v r results up polled has =
      elim (List-cases (get_all_namespaces v)) [
        | inl empty ↦ cc (
          has,
          poll_all_none req_codec resp_codec original_req req_struct results (rw empty at polled),
        )
        | inr (slot, slots, shape) ↦
            rw
              (fan_out_at req_codec resp_codec original_req req_struct v r slot slots results shape
                (rw shape at polled))
              (collect-FirstTask resp_codec redis (arrive results) none r up
                (any_task_perm resp_codec (any_order results) ∙ has))
      ]
