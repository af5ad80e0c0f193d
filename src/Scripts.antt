-- ===== src/Scripts.antt =====
-- scripts/worker.go and scripts/start_workflows.go, the demo. The Temporal SDK is a parameter: how
-- it runs an activity, and the clock. The start of a workflow and its log line leave no state.
pub mod Semaphore
pub mod Mains
use tempura.Common.{ℕ, suc, ◌<◌, ◌≡◌, List, [], ◌∷◌, ◌++◌, Text, codes, length}
use tempura.Common.Result.{Result, ok, err}
use tempura.Ring.Hash.{itoa}

-- the activity, but for its second of sleep
unfoldable pub dummy_activity_type : Text → Result Text Text
dummy_activity_type name = ok (codes "Hello " ++ (name ++ codes " from Activity!"))

-- `execute_activity` is workflow.ExecuteActivity and its Get
unfoldable pub dummy_workflow_type :
    ((Text → Result Text Text) → Text → Result Text Text) → Result Text Text
dummy_workflow_type execute_activity =
    elim (execute_activity dummy_activity_type (codes "Temporal")) [
      | err e ↦ err e
      | ok result ↦ ok (codes "Success: " ++ result)
    ]

abbrev pub num_workflows : ℕ
num_workflows = 1000

-- the capacity of the channel `sem`
abbrev pub capacity : ℕ
capacity = 2

-- fmt.Sprintf("test-workflow-%d-%d", time.Now().UnixNano(), index)
unfoldable pub workflow_id : ℕ → ℕ → Text
workflow_id now index = codes "test-workflow-" ++ (itoa now ++ (codes "-" ++ itoa index))

-- `next` is the loop's index; `in_flight` the goroutines that hold a token; `started` the ids that
-- were given to ExecuteWorkflow
pub record Run : Type 0 where
  pub next : ℕ
  pub in_flight : List ℕ
  pub started : List Text

abbrev pub begin : Run
begin = record { next = 0; in_flight = []; started = [] }

-- The loop takes a token and spawns a goroutine, or a goroutine starts its workflow and is done.
pub data Step : Run → Run → Type 0 where
  acquire :
      (s : Run)
      → s.next < num_workflows
      → length s.in_flight < capacity
      → Step s (record s { next = suc s.next; in_flight = s.in_flight ++ (s.next ∷ []) })
  finish :
      (s : Run) (before after : List ℕ) (index now : ℕ)
      → s.in_flight ≡ before ++ (index ∷ after)
      → Step s (record s {
        in_flight = before ++ after;
        started = s.started ++ (workflow_id now index ∷ []);
      })

pub data Reachable : Run → Type 0 where
  start : Reachable begin
  then : {s t : Run} → Reachable s → Step s t → Reachable t
