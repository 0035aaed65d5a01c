-- ===== src/ScaleAsg/Handler.antt =====
-- src/autorecycle_scale_asg/handler.py. Logging is left out.
pub mod Protocol
pub mod Reading
pub mod Order
pub mod Counter
use aws_autorecycle.Base.{
  ℕ, ℤ, pos, eqb_ℕ, ltb_ℕ, String, ◌<>◌, Bool, true, false, ◌||◌, Option, none, some, List, [], ◌∷◌,
  if◌then◌else◌,
}
use aws_autorecycle.Base.Dict.{Dict, insert, values}
use aws_autorecycle.Exceptions.{Exception, Result, ok, err, exception}
use aws_autorecycle.Effect.{lift, pure, raise, attempt, ◌>>=◌, ◌>>◌}
use aws_autorecycle.ScaleAsg.Event.{
  Event, Field, unset, set_none, set, value, Channels, one, flag, text_status, MessageField,
  MessageContent, slack_channel, create_output_params,
}
use aws_autorecycle.ScaleAsg.Services.{Services, Run, Asg, Activity}
use aws_autorecycle.ScaleAsg.Autoscaling.{
  describe_asg, describe_scaling_activities, execute_scaling_policy,
}
use aws_autorecycle.ScaleAsg.NextAction.{
  Direction, scale_in, scale_out, NextAsgAction, get_overall_progress, get_overall_statuscode,
  get_next_asg_action,
}

-- `not event.counter`
abbrev pub is_unset : Option ℤ → Bool
is_unset none = true
is_unset (some n) = eqb_ℕ n 0

abbrev pub has_counter : ℕ → Event → Bool
has_counter n event = elim (value event.counter) [ none ↦ false | some c ↦ eqb_ℕ c n ]

abbrev pub counter_below : ℕ → Event → Bool
counter_below n event = elim (value event.counter) [ none ↦ false | some c ↦ ltb_ℕ c n ]

-- The event that ends a recycling that takes too long.
unfoldable pub timed_out : Event → Event
timed_out event = record {
  channels = set (one (slack_channel event.monitoring_slack_channel));
  component = event.component;
  counter = unset;
  emoji = unset;
  exception = unset;
  message_content = set (record {
    color = set "danger";
    fields = unset;
    text = set (
        "Autorecycling of "
        <> (event.component <> " appears to be taking too long :scream: please investigate."));
  });
  monitoring_slack_channel = set (slack_channel event.monitoring_slack_channel);
  pager_duty_description = set (
      "Autorecycling of "
      <> (event.component <> " appears to be taking too long. Please investigate."));
  pager_duty_event_type = set "trigger";
  notify_pager_duty = unset;
  recycle_success = unset;
  status = set (text_status "fail");
  success_channel = event.success_channel;
  team = unset;
  text = unset;
  username = unset;
}

abbrev pub initiated : String
initiated = "Auto-recycling has successfully initiated"

abbrev pub investigate : String
investigate = "The last scaling event was not Successful. Please investigate"

abbrev pub policy_name : Direction → String
policy_name scale_in = "recycle-scale-in"
policy_name scale_out = "recycle-scale-out"

module _ (S : Services) where
  -- The loop that fills `asg_activity_details`.
  unfoldable pub describe_all : List Asg → Dict Activity → Run S (Dict Activity)
  describe_all [] details = pure details
  describe_all (asg ∷ asgs) details = do
    activity ← describe_scaling_activities S asg.name
    describe_all asgs (insert asg.name activity details)

-- `environment` is the variable ENVIRONMENT, and `repr` Python's text of an exception.
module _ (S : Services) (environment : Option String) (repr : Exception → String) where
  message_content_fields : Event → List MessageField
  message_content_fields event =
      record { title = "Component"; content = some event.component; short = true }
      ∷ record { title = "Environment"; content = environment; short = true }
      ∷ []

  message : Event → String → String → Field MessageContent
  unfolding message_content_fields
  message event color text =
      set
        (record { color = set color; fields = set (message_content_fields event); text = set text })

  -- What the branches that go on, and the one that is over, do to the output.
  unfoldable pub good : Event → Bool → String → Event → Event
  unfolding message
  good event success text output = record output {
    message_content = message event "good" text;
    recycle_success = set success;
  }

  unfoldable pub failed : Event → Event → Event
  unfolding message
  failed event output = record output {
    message_content = message event "danger" investigate;
    recycle_success = set false;
    pager_duty_description = set investigate;
    pager_duty_event_type = set "trigger";
    status = set (text_status "fail");
  }

  -- What follows `if next_step:`, in both of its branches.
  unfoldable pub take_step : Event → Event → Option NextAsgAction → Run S Event
  take_step event output none =
      pure (record (good event true initiated output) { status = set (flag true) })
  take_step event output (some next_step) = do
    execute_scaling_policy S next_step.asg_name (policy_name next_step.action)
    pure (
        good event false
          (if has_counter 1 output then initiated else "Auto-recycling is already in progress")
          output)

  unfoldable pub proceed : Event → Event → List Asg → Dict Activity → Run S Event
  proceed event output asgs details =
      let step = get_next_asg_action S asgs details >>= take_step event output in
      if get_overall_progress (values details)
      then if get_overall_statuscode (values details) then step else pure (failed event output)
      else pure (good event false initiated output)

  -- The body of the `try`.
  unfoldable pub try_scale : Event → Event → Run S Event
  try_scale event output = do
    asgs ← describe_asg S event.component
    details ← describe_all S asgs []
    proceed event output asgs details

  -- The handler of the `except`.
  unfoldable pub caught : Event → Event → Result Event → Event
  caught event output (ok output') = output'
  caught event output (err e) = record (failed event output) { exception = set (repr e) }

  unfoldable pub scale_asg : Event → Run S Event
  scale_asg event =
      let output = create_output_params event in
      do r ← attempt (try_scale event output); pure (caught event output r)

  unfoldable pub handle_event : Event → Run S Event
  handle_event event =
      if is_unset (value event.counter)
      then scale_asg
          (record event { counter = set (pos 0); channels = set (one event.success_channel) })
      else if counter_below 60 event
      then scale_asg event
      else if has_counter 60 event
      then pure (timed_out event)
      else raise (exception "")

  -- `validate` and `dump` stand for pydantic's `model_validate` and `model_dump`.
  module _ {Raw : Type 0} (validate : Raw → Result Event) (dump : Event → Raw) where
    unfoldable pub lambda_handler : Raw → Run S Raw
    lambda_handler lambda_event = do
      event ← lift (validate lambda_event)
      result ← handle_event event
      pure (dump result)
