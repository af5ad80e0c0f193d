-- ===== src/Scripts/Mains.antt =====
-- scripts/worker.go and scripts/start_workflows.go: their mains. The SDK's client and worker are a
-- parameter; log.Fatalln ends the process without the deferred Close.
use tempura.Common.{Option, none, some, List, [], ◌∷◌, Text, codes}
use tempura.Common.Result.{Result, ok, err}
use tempura.Startup.{Exit, returns, log_fatal}
use tempura.Scripts.{Run, begin}

-- what a worker listens to, and what it was given, by its name
pub record Worker : Type 0 where
  pub task_queue : Text
  pub workflows : List Text
  pub activities : List Text

pub record Sdk : Type 1 where
  pub World : Type 0
  pub Client : Type 0
  pub Error : Type 0
  pub dial : Text → Text → World → Result Error Client × World
  pub close : Client → World → World
  pub run_worker : Client → Worker → World → Option Error × World

abbrev pub dummy_worker : Worker
dummy_worker = record {
  task_queue = codes "test-task-queue";
  workflows = codes "DummyWorkflowType" ∷ [];
  activities = codes "DummyActivityType" ∷ [];
}

module _ ⦃sdk : Sdk⦄ where
  open sdk use {World, Client, Error}

  -- client.Dial of the proxy
  unfoldable pub dial_proxy : World → Result Error Client × World
  dial_proxy w = sdk.dial (codes "localhost:8088") (codes "default") w

  -- the end of the worker's main: the error of Run is fatal
  unfoldable pub worker_done : Client → Option Error → World → Exit World
  worker_done c none w = returns (sdk.close c w)
  worker_done c (some e) w = log_fatal w

  unfoldable pub worker_main : World → Exit World
  unfolding dial_proxy worker_done
  worker_main w =
      let (dialed, w1) = dial_proxy w in
      elim dialed [
        | err e ↦ log_fatal w1
        | ok c ↦ let (e, w2) = sdk.run_worker c dummy_worker w1 in worker_done c e w2
      ]

  -- the starter up to its loop, which is Step of Scripts.antt; `none` is log.Fatalln
  unfoldable pub start_workflows : World → Option (Client × Run) × World
  unfolding dial_proxy
  start_workflows w =
      let (dialed, w1) = dial_proxy w in (elim dialed [ err e ↦ none | ok c ↦ some (c, begin) ], w1)
