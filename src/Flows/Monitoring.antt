-- ===== src/Flows/Monitoring.antt =====
-- The loop of terraform/state_machine.tf over src/monitor_autorecycle: the monitor is invoked with the
-- event that it returned, until that reports success or its counter is above 20. An exception leads
-- to "Lambda Error", whose status is "fail".
pub mod Choices
pub mod Ending
pub mod Bound
use aws_autorecycle.Base.{ℕ, zero, suc, Bool, Option, none, some, if◌then◌else◌}
use aws_autorecycle.Exceptions.{Exception, Result, ok, err}
use aws_autorecycle.Effect.{lift, pure, attempt, ◌>>=◌}
use aws_autorecycle.Json.{Fields}
use aws_autorecycle.Monitor.Services.{Services, Run}
use aws_autorecycle.Monitor.Handler.{lambda_handler}
use aws_autorecycle.Flows.Monitoring.Choices.{is_done}

-- How the loop is left: with an event, or by an exception of the lambda.
pub data Exit : Type 0 where
  finished : Fields → Exit
  lambda_error : Exception → Exit

module _ (S : Services) where
  -- "Is Autorecycling Done?" after an invocation that returned.
  abbrev pub after_monitor : (Fields → Run S (Option Exit)) → Result Fields → Run S (Option Exit)
  after_monitor again (err e) = pure (some (lambda_error e))
  after_monitor again (ok o) = do
    done ← lift (is_done o)
    if done then pure (some (finished o)) else again o

  -- At most so many invocations: `none` if they do not end it.
  unfoldable pub monitoring : ℕ → Fields → Run S (Option Exit)
  monitoring zero event = pure none
  monitoring (suc rounds) event =
      attempt (lambda_handler S event) >>= after_monitor (monitoring rounds)
