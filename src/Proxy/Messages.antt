-- ===== src/Proxy/Messages.antt =====
-- go.temporal.io/api/workflowservice: the fields of the messages that the proxy reads or writes.
-- `others` stands for the fields that it passes through. The protobuf codec is a parameter, with
-- the law that a marshalled message is read back.
use tempura.Common.{ℕ, ◌≡◌, Option, some, List, Bytes, Text}

pub record Codec (M : Type 0) : Type 0 where
  pub unmarshal : Bytes → Option M
  pub marshal : M → Option Bytes
  pub unmarshal-marshal : (m : M) (b : Bytes) → marshal m ≡ some b → unmarshal b ≡ some m

-- enums.CommandType: the one value that the proxy tests for, and the others
pub data CommandType : Type 0 where
  complete_workflow_execution : CommandType
  other_command : ℕ → CommandType

pub record StartWorkflowExecutionRequest : Type 0 where
  pub namespace : Text
  pub workflow_id : Text
  pub others : Bytes

pub record RespondWorkflowTaskCompletedRequest : Type 0 where
  pub namespace : Text
  pub task_token : Bytes
  pub resource_id : Text
  pub commands : List CommandType
  pub others : Bytes

pub record RespondActivityTaskCompletedRequest : Type 0 where
  pub namespace : Text
  pub task_token : Bytes
  pub resource_id : Text
  pub others : Bytes

pub record RespondQueryTaskCompletedRequest : Type 0 where
  pub namespace : Text
  pub task_token : Bytes
  pub others : Bytes

-- The requests that name a workflow by a WorkflowExecution, whose getter gives "" for nil:
-- RequestCancelWorkflowExecution, SignalWorkflowExecution, QueryWorkflow and
-- GetWorkflowExecutionHistory.
pub record ExecutionRequest : Type 0 where
  pub namespace : Text
  pub execution : Option Text
  pub others : Bytes

-- PollWorkflowTaskQueueRequest and PollActivityTaskQueueRequest
pub record PollRequest : Type 0 where
  pub namespace : Text
  pub others : Bytes

-- PollWorkflowTaskQueueResponse and PollActivityTaskQueueResponse
pub record PollResponse : Type 0 where
  pub task_token : Bytes
  pub execution : Option Text
  pub others : Bytes

pub record Protobuf : Type 0 where
  pub start_workflow_execution : Codec StartWorkflowExecutionRequest
  pub respond_workflow_task_completed : Codec RespondWorkflowTaskCompletedRequest
  pub respond_activity_task_completed : Codec RespondActivityTaskCompletedRequest
  pub respond_query_task_completed : Codec RespondQueryTaskCompletedRequest
  pub request_cancel_workflow_execution : Codec ExecutionRequest
  pub signal_workflow_execution : Codec ExecutionRequest
  pub query_workflow : Codec ExecutionRequest
  pub get_workflow_execution_history : Codec ExecutionRequest
  pub poll_workflow_task_queue : Codec PollRequest
  pub poll_activity_task_queue : Codec PollRequest
  pub poll_workflow_task_queue_response : Codec PollResponse
  pub poll_activity_task_queue_response : Codec PollResponse
