-- ===== src/Flows/InOut/Choices.antt =====
-- The choices of terraform/state_machine.tf for the strategy "in-out". A choice on a field that the
-- event lacks fails; what stands behind the
-- first choice that holds is not read.
use aws_autorecycle.Base.{ltb_ℕ, Bool, true, not, ◌==◌, if◌then◌else◌}
use aws_autorecycle.Exceptions.{Result, ok, required, ◌>>=◌}
use aws_autorecycle.ScaleAsg.Event.{Event, text_status, flag, value}

-- "Is first run?": `NumericLessThanEquals 1`.
unfoldable pub is_first_run : Event → Result Bool
is_first_run event = do counter ← required "$.counter" (value event.counter); ok (ltb_ℕ counter 2)

-- "Is Autorecycling single instance ASG Done?": `NumericGreaterThan 20`
unfoldable pub is_done : Event → Result Bool
is_done event = do
  recycle_success ← required "$.recycle_success" (value event.recycle_success)
  let unless_done = do
    counter ← required "$.counter" (value event.counter)
    ok (not (ltb_ℕ counter 21))
  if recycle_success then ok true else unless_done

-- Fail and Success
pub data Ending : Type 0 where
  fail success : Ending

-- "Status"
unfoldable pub status : Event → Result Ending
status event = do
  status ← required "$.status" (value event.status)
  ok (elim status [ text_status s ↦ if s == "fail" then fail else success | flag b ↦ success ])
