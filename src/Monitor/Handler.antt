-- ===== src/Monitor/Handler.antt =====
-- src/monitor_autorecycle/main.py: the handler. Logging is left out.
pub mod Report
pub mod Kept
use aws_autorecycle.Base.{ℕ, pos, ltb, String, Bool, true, false, Option, none, some, if◌then◌else◌}
use aws_autorecycle.Exceptions
use aws_autorecycle.Exceptions.{Exception, Result, ok, err, exception, scaled_down_asg}
use aws_autorecycle.Effect.{lift, raise, attempt, ◌>>=◌}
use aws_autorecycle.Json.{
  Json, bool, num, str, obj, Fields, end, lookup, insert, contains, get_item, as_text, set_inner,
  plus_one,
}
use aws_autorecycle.Monitor.Services.{Services, Run}
use aws_autorecycle.Monitor.Checks.{check}

-- `if "message_content" not in output: ...` and `if "counter" not in output: ...`
unfoldable pub with_defaults : Fields → Fields
with_defaults event =
    let output =
      if contains "message_content" event
      then event
      else insert "message_content" (obj end) event in
    if contains "counter" output then output else insert "counter" (num (pos 0)) output

-- `output["counter"] += 1`
unfoldable pub count_up : Fields → Result Fields
count_up output =
    Exceptions.◌>>=◌ (get_item output "counter")
      (λ n. Exceptions.◌>>=◌ (plus_one n) (λ n'. ok (insert "counter" n' output)))

-- `output["counter"] > 20`
unfoldable pub is_overdue : Fields → Bool
is_overdue output = elim (lookup "counter" output) [ some (num (pos n)) ↦ ltb 20 n | _ ↦ false ]

abbrev pub too_long : String
too_long = "Autorecycling appears to be taking too long :scream: please investigate."

-- The branch of an overdue recycling. `output` and `event` are the same dictionary.
unfoldable pub overdue : Fields → Result Fields
overdue output = Exceptions.◌>>=◌ (set_inner output "message_content" "color" (str "danger")) (λ o1.
    Exceptions.◌>>=◌ (set_inner o1 "message_content" "text" (str too_long)) (λ o2.
      Exceptions.◌>>=◌ (get_item o2 "channels") (λ channels. ok (
        insert "recycle_success" (bool false)
          (insert "status" (str "fail") (insert "channels" channels o2))))))

abbrev pub completed : String
completed = "Autorecycling has successfully completed"

abbrev pub not_required : String
not_required = "The ASG is scaled down to 0 instances, auto-recycling is not required"

abbrev succeeded : String → Fields → Result Fields
succeeded text output =
    Exceptions.◌>>=◌ (set_inner output "message_content" "text" (str text))
      (λ o. ok (insert "recycle_success" (bool true) o))

-- What the `try` and its `except` do with the outcome of the check.
unfoldable pub conclude : Fields → Result Bool → Result Fields
conclude output (ok true) = succeeded completed output
conclude output (ok false) = ok (insert "recycle_success" (bool false) output)
conclude output (err scaled_down_asg) = succeeded not_required output
conclude output (err e) = err e

module _ (S : Services) where
  unfoldable pub check_event : Fields → Run S Bool
  check_event output = do
    component ← lift (get_item output "component")
    name ← lift (as_text component)
    check S name

  unfoldable pub monitor_autorecycle : Fields → Run S Fields
  monitor_autorecycle event = do
    output ← lift (count_up (with_defaults event))
    if is_overdue output
        then lift (overdue output)
        else do r ← attempt (check_event output); lift (conclude output r)

  unfoldable pub lambda_handler : Fields → Run S Fields
  lambda_handler event =
      if contains "component" event
      then monitor_autorecycle event
      else raise (exception "No component in event")
