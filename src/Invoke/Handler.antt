-- ===== src/Invoke/Handler.antt =====
-- src/autorecycle_invoke_stepfunctions/handler.py and sf_start_execution.py, with
-- get_account_details.py and get_environment.py. Logging is left out.
pub mod Payload
pub mod Starts
pub mod Failures
pub mod Forgiven
use aws_autorecycle.Base.{
  String, ◌<>◌, Bool, true, false, Option, none, some, List, [], ◌∷◌, if◌then◌else◌,
}
use aws_autorecycle.Exceptions
use aws_autorecycle.Exceptions.{Exception, Result, ok, err, required, client_error, NoneType}
use aws_autorecycle.Effect.{lift, pure, attempt, ◌>>=◌, ◌>>◌}
use aws_autorecycle.Json.{Json, str, Fields, end, lookup, insert, contains, get_item, format}
use aws_autorecycle.Invoke.Services.{Services, Run, Environment, start_execution, timestamp}
use aws_autorecycle.Invoke.Component.{get_component_name, assert_recyclable}
use aws_autorecycle.Invoke.Tags.{get_asg, get_autorecycling_tags}

abbrev pub get_account_id : Environment → Result String
get_account_id env = required "ACCOUNT_ID" env.account_id

abbrev pub get_slack_channel : Environment → Result String
get_slack_channel env = required "SLACK_CHANNEL" env.slack_channel

-- `payload_to_asg_tag_map`
abbrev pub payload_to_asg_tag_map : List (String × String)
payload_to_asg_tag_map =
    ("strategy", "autorecycle_strategy")
    ∷ ("monitoring_slack_channel", "autorecycle_slack_monitoring_channel")
    ∷ ("notify_pager_duty", "autorecycle_notify_pager_duty")
    ∷ ("team", "autorecycle_team")
    ∷ ("step_function_name", "autorecycle_step_function_name")
    ∷ ("dry_run", "autorecycle_dry_run")
    ∷ []

-- The loop over that map.
unfoldable pub copy_tags : List (String × String) → Fields → Fields → Fields
copy_tags [] asg_tags payload = payload
copy_tags ((payload_key, tag_name) ∷ pairs) asg_tags payload =
    copy_tags pairs asg_tags
      (elim (lookup tag_name asg_tags) [ none ↦ payload | some v ↦ insert payload_key v payload ])

unfoldable pub construct_payload : String → String → Json → String → Fields → Fields
unfolding copy_tags
construct_payload account_id slack_channel component group asg_tags =
    copy_tags payload_to_asg_tag_map asg_tags (
      insert "emoji" (str ":robot_face:") (
        insert "auto_scaling_group_name" (str group) (
          insert "component" component (
            insert "success_channel" (str slack_channel)
              (insert "account_id" (str account_id) end)))))

module _ (show : Json → String) where
  -- `if "step_function_name" in payload:` and both branches
  unfoldable pub state_machine_arn : Fields → Result String
  unfolding format
  state_machine_arn payload = Exceptions.◌>>=◌ (get_item payload "account_id") (λ account_id. ok (
      "arn:aws:states:eu-west-2:"
      <> (format show account_id
          <> (":stateMachine:" <> elim (lookup "step_function_name" payload) as (λ o. String) [
            | none ↦ "autorecycle"
            | some name ↦ format show name
          ]))))

  unfoldable pub execution_name : String → Fields → Result String
  unfolding format
  execution_name time payload =
      Exceptions.◌>>=◌ (get_item payload "component")
        (λ component. ok (format show component <> ("-" <> time)))

-- `except ClientError`: another exception goes on.
abbrev pub forgive_client_error : Result NoneType → Result NoneType
forgive_client_error (ok a) = ok a
forgive_client_error (err (client_error message)) = ok tt
forgive_client_error (err e) = err e

-- `asg_tags.get("autorecycle_override_component_name", component)`
abbrev pub override_component_name : String → Fields → Json
override_component_name component asg_tags =
    elim (lookup "autorecycle_override_component_name" asg_tags) [
      | none ↦ str component
      | some name ↦ name
    ]

module _ (S : Services) (show : Json → String) where
  -- The text of the input is left to the service: it is `json.dumps(payload)`.
  unfoldable pub sf_start_execution : Fields → Run S NoneType
  sf_start_execution payload = do
    arn ← lift (state_machine_arn show payload)
    time ← timestamp S
    name ← lift (execution_name show time payload)
    r ← attempt (start_execution S arn name payload)
    lift (forgive_client_error r)

  -- What follows the test that the component was set.
  unfoldable pub recycle : Environment → String → Run S NoneType
  recycle env component = do
    account_id ← lift (get_account_id env)
    slack_channel ← lift (get_slack_channel env)
    group ← get_asg S component
    asg_tags ← get_autorecycling_tags S group
    let payload =
        construct_payload account_id slack_channel (override_component_name component asg_tags)
          group asg_tags
    if assert_recyclable asg_tags then sf_start_execution payload else pure tt

  unfoldable pub lambda_handler : Environment → Fields → Run S NoneType
  lambda_handler env event = do
    component ← lift (get_component_name event)
    elim component [ none ↦ pure tt | some name ↦ recycle env name ]
