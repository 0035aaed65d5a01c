-- ===== src/Flows/InOut.antt =====
-- The states of terraform/state_machine.tf for the strategy "in-out": the scaling lambda is invoked with
-- the event that it returned, until it reports success or its counter is above 20.
pub mod Choices
pub mod Rounds
use aws_autorecycle.Base.{ℕ, zero, suc, String, Option, none, some, if◌then◌else◌}
use aws_autorecycle.Exceptions.{Exception, Result, ok, err}
use aws_autorecycle.Effect.{lift, pure, ◌>>=◌}
use aws_autorecycle.ScaleAsg.Event.{Event}
use aws_autorecycle.ScaleAsg.Services.{Services, Run}
use aws_autorecycle.ScaleAsg.Handler.{handle_event}
use aws_autorecycle.Flows.InOut.Choices.{is_first_run, is_done}

-- `notify` is the lambda for notices, whose answer goes on in place of the event. If it raises, the
-- event goes on, with an "error-info" that the next lambda's model does not have.
abbrev pub noticed : (Event → Result Event) → Event → Event
noticed notify event = elim (notify event) [ ok answer ↦ answer | err _ ↦ event ]

module _ (S : Services) (environment : Option String) (repr : Exception → String)
    (notify : Event → Result Event) where
  -- "Recycle single instance ASG", the notice of the first run, and the wait.
  unfoldable pub round : Event → Run S Event
  round event = do
    o ← handle_event S environment repr event
    first_run ← lift (is_first_run o)
    pure (if first_run then noticed notify o else o)

  -- At most so many rounds: `none` if they do not end it.
  unfoldable pub in_out : ℕ → Event → Run S (Option Event)
  in_out zero event = pure none
  in_out (suc rounds) event = do
    o ← round event
    done ← lift (is_done o)
    let again = in_out rounds o
    if done then pure (some o) else again
