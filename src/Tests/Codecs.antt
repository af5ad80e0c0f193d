-- ===== src/Tests/Codecs.antt =====
-- A codec for the tests: a message is written as texts, each with a zero behind it.
use tempura.Common.{
  zero, suc, ◌≡◌, refl, ap, ◌∙◌, Option, none, some, List, [], ◌∷◌, ◌++◌, arith, Bytes, Text,
  append_assoc, append-nil,
}
use tempura.Grpc.{Gzip, bad_header}
use tempura.Proxy.Messages.{
  Codec, CommandType, complete_workflow_execution, other_command, StartWorkflowExecutionRequest,
  RespondWorkflowTaskCompletedRequest, RespondActivityTaskCompletedRequest,
  RespondQueryTaskCompletedRequest, ExecutionRequest, PollRequest, PollResponse, Protobuf,
}

instance abbrev pub no_gzip : Gzip
no_gzip = record { gunzip = λ b. bad_header }

abbrev pub write_text : Text → Bytes → Bytes
write_text [] rest = 0 ∷ rest
write_text (c ∷ t) rest = suc c ∷ write_text t rest

abbrev pub write_all : List Text → Bytes
write_all [] = []
write_all (t ∷ ts) = write_text t (write_all ts)

abbrev pub read_all : Text → Bytes → List Text
read_all cur [] = []
read_all cur (zero ∷ b) = cur ∷ read_all [] b
read_all cur (suc c ∷ b) = read_all (cur ++ (c ∷ [])) b

read-write_text :
    (cur t : Text) (rest : Bytes) → read_all cur (write_text t rest) ≡ (cur ++ t) ∷ read_all [] rest
read-write_text cur [] rest = ground (arith, append-nil cur)
read-write_text cur (c ∷ t) rest =
    read-write_text (cur ++ (c ∷ [])) t rest ∙ ground (arith, append_assoc cur (c ∷ []) t)

pub read-write_all : (ts : List Text) → read_all [] (write_all ts) ≡ ts
read-write_all [] = refl
read-write_all (t ∷ ts) = read-write_text [] t (write_all ts) ∙ ap (◌∷◌ t) (read-write_all ts)

pub read_back :
    {M : Type 0} (texts : M → List Text) (message : List Text → Option M) (m : M) (b : Bytes)
    → message (texts m) ≡ some m
    → some (write_all (texts m)) ≡ some b
    → message (read_all [] b) ≡ some m
read_back texts message m b law e = ground (arith, e, read-write_all (texts m), law)

abbrev pub codec_by :
    {M : Type 0} (texts : M → List Text) (message : List Text → Option M)
    → ((m : M) → message (texts m) ≡ some m)
    → Codec M
codec_by texts message law = record {
  unmarshal = λ b. message (read_all [] b);
  marshal = λ m. some (write_all (texts m));
  unmarshal-marshal = λ m b e. read_back texts message m b (law m) e;
}

-- an optional text as a list of one or none
abbrev pub option_texts : Option Text → List Text
option_texts none = []
option_texts (some t) = t ∷ []

abbrev pub command_codes : List CommandType → Text
command_codes [] = []
command_codes (complete_workflow_execution ∷ l) = 0 ∷ command_codes l
command_codes (other_command n ∷ l) = suc n ∷ command_codes l

abbrev pub commands_of : Text → List CommandType
commands_of [] = []
commands_of (zero ∷ l) = complete_workflow_execution ∷ commands_of l
commands_of (suc n ∷ l) = other_command n ∷ commands_of l

pub commands_back : (l : List CommandType) → commands_of (command_codes l) ≡ l
commands_back [] = refl
commands_back (complete_workflow_execution ∷ l) =
    ap (◌∷◌ complete_workflow_execution) (commands_back l)
commands_back (other_command n ∷ l) = ap (◌∷◌ (other_command n)) (commands_back l)

abbrev pub read_start : List Text → Option StartWorkflowExecutionRequest
read_start (ns ∷ w ∷ rest ∷ []) = some (record { namespace = ns; workflow_id = w; others = rest })
read_start _ = none

abbrev pub read_workflow_task : List Text → Option RespondWorkflowTaskCompletedRequest
read_workflow_task (ns ∷ token ∷ w ∷ commands ∷ rest ∷ []) = some (record {
  namespace = ns;
  task_token = token;
  resource_id = w;
  commands = commands_of commands;
  others = rest;
})
read_workflow_task _ = none

abbrev pub read_activity_task : List Text → Option RespondActivityTaskCompletedRequest
read_activity_task (ns ∷ token ∷ w ∷ rest ∷ []) =
    some (record { namespace = ns; task_token = token; resource_id = w; others = rest })
read_activity_task _ = none

abbrev pub read_query_task : List Text → Option RespondQueryTaskCompletedRequest
read_query_task (ns ∷ token ∷ rest ∷ []) =
    some (record { namespace = ns; task_token = token; others = rest })
read_query_task _ = none

abbrev pub read_execution : List Text → Option ExecutionRequest
read_execution (ns ∷ rest ∷ []) = some (record { namespace = ns; execution = none; others = rest })
read_execution (ns ∷ rest ∷ w ∷ []) =
    some (record { namespace = ns; execution = some w; others = rest })
read_execution _ = none

abbrev pub read_poll : List Text → Option PollRequest
read_poll (ns ∷ rest ∷ []) = some (record { namespace = ns; others = rest })
read_poll _ = none

abbrev pub read_response : List Text → Option PollResponse
read_response (token ∷ rest ∷ []) =
    some (record { task_token = token; execution = none; others = rest })
read_response (token ∷ rest ∷ w ∷ []) =
    some (record { task_token = token; execution = some w; others = rest })
read_response _ = none

pub execution_back :
    (ns rest : Text) (w : Option Text)
    → read_execution (ns ∷ rest ∷ option_texts w)
      ≡ some (record { namespace = ns; execution = w; others = rest })
execution_back ns rest none = refl
execution_back ns rest (some w) = refl

pub response_back :
    (token rest : Text) (w : Option Text)
    → read_response (token ∷ rest ∷ option_texts w)
      ≡ some (record { task_token = token; execution = w; others = rest })
response_back token rest none = refl
response_back token rest (some w) = refl

abbrev pub execution_codec : Codec ExecutionRequest
execution_codec =
    codec_by (λ m. m.namespace ∷ m.others ∷ option_texts m.execution) read_execution
      (λ m. execution_back m.namespace m.others m.execution)

abbrev pub poll_codec : Codec PollRequest
poll_codec = codec_by (λ m. m.namespace ∷ m.others ∷ []) read_poll (λ m. refl)

abbrev pub response_codec : Codec PollResponse
response_codec =
    codec_by (λ m. m.task_token ∷ m.others ∷ option_texts m.execution) read_response
      (λ m. response_back m.task_token m.others m.execution)

abbrev pub start_codec : Codec StartWorkflowExecutionRequest
start_codec = codec_by (λ m. m.namespace ∷ m.workflow_id ∷ m.others ∷ []) read_start (λ m. refl)

abbrev pub workflow_task_codec : Codec RespondWorkflowTaskCompletedRequest
workflow_task_codec =
    codec_by
      (λ m. m.namespace ∷ m.task_token ∷ m.resource_id ∷ command_codes m.commands ∷ m.others ∷ [])
      read_workflow_task (λ m. rw commands_back)

abbrev pub activity_task_codec : Codec RespondActivityTaskCompletedRequest
activity_task_codec =
    codec_by (λ m. m.namespace ∷ m.task_token ∷ m.resource_id ∷ m.others ∷ []) read_activity_task
      (λ m. refl)

abbrev pub query_task_codec : Codec RespondQueryTaskCompletedRequest
query_task_codec =
    codec_by (λ m. m.namespace ∷ m.task_token ∷ m.others ∷ []) read_query_task (λ m. refl)

abbrev pub protobuf : Protobuf
protobuf = record {
  start_workflow_execution = start_codec;
  respond_workflow_task_completed = workflow_task_codec;
  respond_activity_task_completed = activity_task_codec;
  respond_query_task_completed = query_task_codec;
  request_cancel_workflow_execution = execution_codec;
  signal_workflow_execution = execution_codec;
  query_workflow = execution_codec;
  get_workflow_execution_history = execution_codec;
  poll_workflow_task_queue = poll_codec;
  poll_activity_task_queue = poll_codec;
  poll_workflow_task_queue_response = response_codec;
  poll_activity_task_queue_response = response_codec;
}
