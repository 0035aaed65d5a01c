-- ===== src/Flows/Monitoring/Choices.antt =====
-- The choice of the monitoring loop in terraform/state_machine.tf. A choice on a field that the event
-- lacks fails; what stands behind the
-- first choice that holds is not read.
use aws_autorecycle.Base.{Bool, true, false, not, ltb_ℕ, if◌then◌else◌}
use aws_autorecycle.Exceptions.{Result, ok, required, ◌>>=◌}
use aws_autorecycle.Json.{Json, bool, num, Fields, lookup}

-- `BooleanEquals true` and `NumericGreaterThan 20`
abbrev pub is_true : Json → Bool
is_true (bool b) = b
is_true _ = false

abbrev pub is_above_20 : Json → Bool
is_above_20 (num n) = not (ltb_ℕ n 21)
is_above_20 _ = false

unfoldable pub is_done : Fields → Result Bool
is_done event = do
  recycle_success ← required "$.recycle_success" (lookup "recycle_success" event)
  let unless_done = do
    counter ← required "$.counter" (lookup "counter" event)
    ok (is_above_20 counter)
  if is_true recycle_success then ok true else unless_done
