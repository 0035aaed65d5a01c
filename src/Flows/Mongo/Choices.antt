-- ===== src/Flows/Mongo/Choices.antt =====
-- The choices and the messages of terraform/state_machine.tf for the strategy "mongo". A choice on a
-- value that the event lacks fails.
use aws_autorecycle.Base.{String, ◌<>◌, true, if◌then◌else◌}
use aws_autorecycle.Exceptions.{Result, ok, required, ◌>>=◌}
use aws_autorecycle.Json.{
  Json, bool, str, arr, obj, nil, cons, Fields, end, field, lookup, as_fields,
}
use aws_autorecycle.Flows.Strategy.{string_equals}
use aws_autorecycle.Flows.InOut.Choices.{Ending, fail, success}

pub data Next : Type 0 where
  wait slack_message recycle_again : Next

-- `$.decision.action`
abbrev pub action_at : Fields → Result Json
action_at event = do
  decision ← required "$.decision" (lookup "decision" event)
  inside ← as_fields decision
  required "$.decision.action" (lookup "action" inside)

-- "Mongo autorecycle decision"
unfoldable pub after_recycle : Fields → Result Next
after_recycle event = do
  action ← action_at event
  ok (
      if string_equals "STEP_DOWN_AND_RECYCLE_PRIMARY" action
      then wait
      else if string_equals "RECYCLE_SECONDARY" action
      then wait
      else if string_equals "DONE" action
      then slack_message
      else recycle_again)

-- "Status" on an event.
unfoldable pub status : Fields → Result Ending
status event = do
  value ← required "$.status" (lookup "status" event)
  ok (if string_equals "fail" value then fail else success)

-- The fields of a message: the component and the environment.
abbrev message_fields : String → Json → Json
message_fields environment component = arr (
    cons
      (obj (
        field "short" (bool true)
          (field "value" component (field "title" (str "Component Name") end))))
      (cons
        (obj (
          field "title" (str "Environment")
            (field "value" (str environment) (field "short" (bool true) end))))
        nil))

-- The event that "Mongo Recycle" makes.
abbrev pub recycle_event : String → String → Json → Fields
recycle_event environment slack_channel component = field "username" (str "AutoRecycling") (
    field "status" (str "success") (
      field "text" component (
        field "component" component (
          field "channels" (arr (cons (str slack_channel) nil)) (
            field "message_content"
              (obj (
                field "text" (str "Auto-recycling was successfully initiated")
                  (field "fields" (message_fields environment component) end)))
              (field "emoji" (str ":robot_face:") end))))))

-- "Mongo Recycle": the arguments are the variables of terraform `environment` and `slack_channel`.
unfoldable pub mongo_recycle : String → String → Fields → Result Fields
mongo_recycle environment slack_channel event = do
  component ← required "$.component" (lookup "component" event)
  ok (recycle_event environment slack_channel component)

-- The event that "Lambda Error" makes.
abbrev pub error_event : String → String → Json → Fields
error_event environment runbook component = field "username" (str "AutoRecycling") (
    field "channels" (str "team-infra-alerts") (
      field "component" component (
        field "status" (str "fail") (
          field "message_content"
            (obj (
              field "text" (str ("Failed to recycle a component: " <> runbook)) (
                field "color" (str "danger")
                  (field "fields" (message_fields environment component) end))))
            (field "text"
              (str (
                "State execution has failed in "
                <> (environment <> " because of a lambda exception! Please investigate.")))
              (field "emoji" (str ":robot_face:") end))))))

-- "Lambda Error", after an exception. `runbook` is a local of terraform.
unfoldable pub lambda_error : String → String → Fields → Result Fields
lambda_error environment runbook event = do
  component ← required "$.component" (lookup "component" event)
  ok (error_event environment runbook component)
