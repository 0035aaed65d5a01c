-- ===== src/Flows/Mongo.antt =====
-- The states of terraform/state_machine.tf for the strategy "mongo": the lambda of src/mongo_recycler is
-- invoked with the event that it returned, until its decision is `DONE`. An exception leads to "Lambda
-- Error", whose status is "fail".
pub mod Choices
pub mod Last
pub mod Outcome
use aws_autorecycle.Base.{ℕ, zero, suc, String, Option, none, some, List}
use aws_autorecycle.Exceptions
use aws_autorecycle.Exceptions.{Exception, Result, ok, err, NoneType}
use aws_autorecycle.Effect.{lift, pure, attempt, ◌>>=◌, ◌>>◌}
use aws_autorecycle.Json.{Json, Fields, insert}
use aws_autorecycle.Mongo.Services.{Services, Run}
use aws_autorecycle.Mongo.Step.{lambda_handler}
use aws_autorecycle.Flows.InOut.Choices.{Ending}
use aws_autorecycle.Flows.Mongo.Choices.{
  Next, wait, slack_message, recycle_again, after_recycle, status, mongo_recycle, lambda_error,
}

-- How the loop is left: with the last event, by an exception of the lambda on an event, or not yet.
pub data Exit : Type 0 where
  finished : Fields → Exit
  raised : Fields → Exception → Exit
  underway : Fields → Exit

-- `notify` is the lambda for notices, whose answer goes on in place of the event. If it raises, the
-- event goes on, with what Step Functions tells of the exception, `error_info`, beside it.
abbrev pub noticed : (Fields → Result Fields) → (Exception → Json) → Fields → Fields
noticed notify error_info event = elim (notify event) [
  | ok answer ↦ answer
  | err e ↦ insert "error-info" (error_info e) event
]

module _ (notify : Fields → Result Fields) (error_info : Exception → Json) where
  -- The end of an execution with its last event, `none` while it is under way.
  unfoldable pub conclude : String → String → Exit → Result (Option Ending × Fields)
  conclude environment runbook (underway event) = ok (none, event)
  conclude environment runbook (finished event) =
      Exceptions.◌>>=◌ (status (noticed notify error_info event))
        (λ ending. ok (some ending, event))
  conclude environment runbook (raised event e) =
      Exceptions.◌>>=◌ (lambda_error environment runbook event) (λ error.
        Exceptions.◌>>=◌ (status (noticed notify error_info error))
          (λ ending. ok (some ending, error)))

-- `rest` is what a wait does to the world.
module _ (S : Services) (show : Json → String) (rest : S.World → S.World) where
  -- "Wait for Mongo autorecycle"
  abbrev pub pause : Run S NoneType
  pause w = record { result = ok tt; calls = List.[]; world = rest w }

  abbrev pub go_on : (Fields → Run S Exit) → Fields → Next → Run S Exit
  go_on again o wait = do pause; again o
  go_on again o slack_message = pure (finished o)
  go_on again o recycle_again = again o

  abbrev pub after_lambda : (Fields → Run S Exit) → Fields → Result Fields → Run S Exit
  after_lambda again event (err e) = pure (raised event e)
  after_lambda again event (ok o) = do next ← lift (after_recycle o); go_on again o next

  -- "Recycle Mongo Cluster", so many times at most.
  unfoldable pub recycle_cluster : ℕ → Fields → Run S Exit
  recycle_cluster zero event = pure (underway event)
  recycle_cluster (suc rounds) event =
      attempt (lambda_handler S show event) >>= after_lambda (recycle_cluster rounds) event

  unfoldable pub mongo_strategy :
      (Fields → Result Fields)
      → (Exception → Json)
      → String
      → String
      → String
      → ℕ
      → Fields
      → Run S (Option Ending × Fields)
  mongo_strategy notify error_info environment slack_channel runbook rounds event = do
    started ← lift (mongo_recycle environment slack_channel event)
    exit ← recycle_cluster rounds (noticed notify error_info started)
    lift (conclude notify error_info environment runbook exit)
