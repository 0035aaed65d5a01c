-- ===== src/Autorecycle.antt =====
-- src/autorecycle/autorecycle_lambda.py: asks a component's queue to recycle it, and says how that
-- went. The set-up of boto3's client and `print` are left out.
pub mod Report
mod Tests
use aws_autorecycle.Base.{
  String, ◌<>◌, Bool, true, false, Option, none, some, List, ◌∷◌, [], ◌==◌, if◌then◌else◌,
}
use aws_autorecycle.Exceptions.{Result, ok, err}
use aws_autorecycle.Effect
use aws_autorecycle.Effect.{ask, attempt, pure, lift, ◌>>=◌}
use aws_autorecycle.Json.{
  Json, null, bool, str, arr, obj, nil, cons, Fields, end, field, contains, get_item, format,
}

-- What the lambda sends: the queue, the two attributes and the body.
pub data Call : Type 0 where
  sent_message : String → Json → Json → String → Call

-- boto3's sqs client. The attributes are values of the event: boto3 raises for one that is no text.
pub record Services : Type 1 where
  pub World : Type 0
  pub send_message : String → Json → Json → String → World → Result Fields × World

-- `os.getenv(name)`
abbrev getenv : Option String → Json
getenv none = null
getenv (some v) = str v

module _ (show : Json → String) where
  -- The outcome, the status and the channel.
  abbrev outcome_of : Bool → Json → String × String × Json
  outcome_of success channel =
      if success
      then ("Auto-recycling was successfully initiated", "success", channel)
      else ("Auto-recycling has failed", "failure", str "team-infra-alerts")

  abbrev message_content : Option String → Json → String → String → Fields
  message_content environment component outcome status = field "text" (str outcome) (
      field "color" (str (if status == "success" then "good" else "danger")) (
        field "fields"
          (arr (
            cons
              (obj (
                field "title" (str "Component Name") (
                  field "value" (str ("recycle-" <> format show component))
                    (field "short" (bool true) end))))
              (cons
                (obj (
                  field "title" (str "Environment")
                    (field "value" (getenv environment) (field "short" (bool true) end))))
                nil)))
          end))

  unfoldable pub output : Option String → Json → Bool → Json → Fields
  unfolding format
  output environment component success channel =
      let (outcome, status, channels) = outcome_of success channel in
      field "username" (str "AutoRecycling") (
        field "channels" channels (
          field "emoji" (str ":robot_face:") (
            field "text" (str ("*" <> (format show component <> "*"))) (
              field "status" (str status) (
                field "component" component (
                  field "message_content"
                    (obj (message_content environment component outcome status)) end))))))

-- `SQS_URL`
abbrev sqs_url : String
sqs_url = "https://sqs.eu-west-2.amazonaws.com"

-- Whether the try block ends with a success: both handlers of exceptions end without one.
abbrev pub is_sent : Result Fields → Bool
is_sent (ok response) = contains "MessageId" response
is_sent (err e) = false

module _ (show : Json → String) where
  abbrev pub sqs_queue : Json → Json → String
  sqs_queue account_id component =
      sqs_url <> ("/" <> (format show account_id <> ("/recycle-" <> format show component)))

  abbrev pub recycle_message : Json → String
  recycle_message component = "Recycle " <> format show component

module _ (S : Services) (show : Json → String) (environment : Option String) where
  abbrev Run : Type 0 → Type 0
  Run A = Effect.Run S.World Call A

  abbrev send_message : String → Json → Json → String → Run Fields
  send_message queue component account_id body =
      ask (λ _. sent_message queue component account_id body)
        (S.send_message queue component account_id body)

  unfoldable pub send_to_sqs : Json → Json → Json → Run Fields
  send_to_sqs component account_id channel = do
    r ← attempt (
        send_message (sqs_queue show account_id component) component account_id
          (recycle_message show component))
    pure (output show environment component (is_sent r) channel)

  unfoldable pub lambda_handler : Fields → Run Fields
  lambda_handler event = do
    component ← lift (get_item event "component")
    account_id ← lift (get_item event "account_id")
    channel ← lift (get_item event "success_channel")
    send_to_sqs component account_id channel
