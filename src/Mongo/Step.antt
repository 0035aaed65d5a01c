-- ===== src/Mongo/Step.antt =====
-- src/mongo_recycler/process/step.py. Logging is left out.
pub mod Order
pub mod Recorded
pub mod Counting
pub mod Kept
use aws_autorecycle.Base.{
  ℕ, ◌+◌, ℤ, pos, String, ◌<>◌, Bool, true, false, not, Option, none, some, if◌then◌else◌,
}
use aws_autorecycle.Exceptions
use aws_autorecycle.Exceptions.{Result, ok, err, NoneType}
use aws_autorecycle.Effect.{lift, pure, ◌>>=◌, ◌>>◌}
use aws_autorecycle.Json.{
  Json, null, num, str, arr, obj, nil, cons, Fields, end, field, lookup, insert, contains, get_item,
  as_text, set_inner, plus_one, truthy_at, format,
}
use aws_autorecycle.Mongo.Models.{Instance, Decision, done, action, instance_of}
use aws_autorecycle.Mongo.Services.{Services, Run, time, put}
use aws_autorecycle.Mongo.PreStepChecks.{
  get_ami_and_check_all_amis_match, fetch_replica_set_status, assert_all_nodes_in_same_replica_set,
}
use aws_autorecycle.Mongo.Decision.{decide_on_action}
use aws_autorecycle.Mongo.Execute.{execute_action}

-- `if "counter" not in event: event["counter"] = 0`
unfoldable pub with_counter : Fields → Fields
with_counter event =
    if contains "counter" event then event else insert "counter" (num (pos 0)) event

-- `event["counter"] += 1`
abbrev pub bump : Fields → Result Fields
bump event =
    Exceptions.◌>>=◌ (get_item event "counter")
      (λ n. Exceptions.◌>>=◌ (plus_one n) (λ n'. ok (insert "counter" n' event)))

unfoldable pub increment_counter : Fields → Result Fields
unfolding with_counter
increment_counter event = bump (with_counter event)

unfoldable pub is_first_run : Fields → Bool
is_first_run event = not (truthy_at "counter" event)

-- A namedtuple is a list in JSON.
instance_json : Option Instance → Json
instance_json none = null
instance_json (some i) = arr (
    cons (str i.instance_id) (
      cons (str i.image_id)
        (cons (str i.ip_address) (cons (str i.mongo_state) (cons (str i.replica_set_name) nil)))))

-- `{"action": step_result.action, "instance": step_result.instance}`
unfoldable pub decision_json : Decision → Json
unfolding instance_json
decision_json d =
    obj (field "action" (str (action d)) (field "instance" (instance_json (instance_of d)) end))

-- The text that the last invocation writes. `show` is Python's text of a list or a dictionary.
final_text : (Json → String) → Fields → String
unfolding format
final_text show event = elim (lookup "counter" event) [
  | none ↦ "No instances were recycled, because there was nothing to do"
  | some n ↦
      "Autorecycling has successfully completed. Recycled "
      <> (format show n <> " mongo instances.")
]

-- `if step_result.action == decision.DONE:` and its body
report_done : (Json → String) → Decision → Fields → Result Fields
unfolding final_text
report_done show done event = set_inner event "message_content" "text" (str (final_text show event))
report_done show _ event = ok event

-- What the handler does to the event once the step is over.
unfoldable pub finish : (Json → String) → Decision → Fields → Result Fields
unfolding report_done decision_json
finish show d event =
    Exceptions.◌>>=◌ (report_done show d (insert "decision" (decision_json d) event))
      increment_counter

module _ (S : Services) where
  unfoldable pub step : String → Run S Decision
  step component = do
    target_ami ← get_ami_and_check_all_amis_match S component
    replica_set_status ← fetch_replica_set_status S component
    lift (assert_all_nodes_in_same_replica_set replica_set_status)
    let outcome = decide_on_action replica_set_status target_ami
    execute_action S component outcome
    pure outcome

  -- The handler of its `except` raises the exception again.
  unfoldable pub record_recycle_starting : String → Run S NoneType
  record_recycle_starting component = do now ← time S; put S component (now + 900)

  -- The component is a text: another value is a `TypeError` at once.
  unfoldable pub lambda_handler : (Json → String) → Fields → Run S Fields
  lambda_handler show event = do
    value ← lift (get_item event "component")
    component ← lift (as_text value)
    if is_first_run event then record_recycle_starting component else pure tt
    step_result ← step component
    lift (finish show step_result event)
