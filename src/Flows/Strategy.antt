-- ===== src/Flows/Strategy.antt =====
-- "Choose Recycle Strategy" of terraform/state_machine.tf, with the input that the lambda of
-- src/autorecycle_invoke_stepfunctions starts it with.
pub mod Named
use aws_autorecycle.Base.{String, Bool, false, ◌==◌, if◌then◌else◌}
use aws_autorecycle.Exceptions.{Result, ok, required, ◌>>=◌}
use aws_autorecycle.Json.{Json, str, Fields, lookup}

pub data Strategy : Type 0 where
  in_out mongo instance_refresh standard : Strategy

-- `StringEquals`: a value that is not a text is no match.
abbrev pub string_equals : String → Json → Bool
string_equals name (str s) = s == name
string_equals name _ = false

-- The choice fails for an input without a strategy.
unfoldable pub choose_strategy : Fields → Result Strategy
choose_strategy event = do
  strategy ← required "$.strategy" (lookup "strategy" event)
  ok (
      if string_equals "in-out" strategy
      then in_out
      else if string_equals "mongo" strategy
      then mongo
      else if string_equals "instance-refresh" strategy
      then instance_refresh
      else standard)
