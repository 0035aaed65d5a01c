-- ===== src/ScaleAsg/Event.antt =====
-- src/autorecycle_scale_asg/lambda_types.py, and `create_output_params` of autorecycle.py
use aws_autorecycle.Base.{
  ℤ, pos, add_one, eqb_ℕ, String, ◌<>◌, Bool, true, Option, none, some, List, if◌then◌else◌,
}

-- An optional field of a pydantic model. `exclude_unset` tells a field that was never set from one
-- that was set to `None`.
pub data Field {ℓ} (A : Type ℓ) : Type ℓ where
  unset : Field A
  set_none : Field A
  set : A → Field A

-- The value of a field whose default is `None`.
abbrev pub value {ℓ} : {A : Type ℓ} → Field A → Option A
value unset = none
value set_none = none
value (set a) = some a

-- `f=event.f`: the field is set, to `None` if it has no value.
abbrev pub passed_on {ℓ} : {A : Type ℓ} → Field A → Field A
passed_on unset = set_none
passed_on set_none = set_none
passed_on (set a) = set a

pub data Channels : Type 0 where
  many : List String → Channels
  one : String → Channels

pub data Status : Type 0 where
  flag : Bool → Status
  text_status : String → Status

-- A dictionary of `fields`: "title", "value" and "short".
pub record MessageField : Type 0 where
  pub title : String
  pub content : Option String
  pub short : Bool

pub record MessageContent : Type 0 where
  pub color : Field String
  pub fields : Field (List MessageField)
  pub text : Field String

pub record Event : Type 0 where
  pub channels : Field Channels
  pub component : String
  pub counter : Field ℤ
  pub emoji : Field String
  pub exception : Field String
  pub message_content : Field MessageContent
  pub monitoring_slack_channel : Field String
  pub pager_duty_description : Field String
  pub pager_duty_event_type : Field String
  pub notify_pager_duty : Field Bool
  pub recycle_success : Field Bool
  pub status : Field Status
  pub success_channel : String
  pub team : Field String
  pub text : Field String
  pub username : Field String

-- The field whose default is "team-infra-alerts".
abbrev pub slack_channel : Field String → String
slack_channel (set channel) = channel
slack_channel _ = "team-infra-alerts"

-- `event.counter + 1 if event.counter else 1`
abbrev pub next_counter : Option ℤ → ℤ
next_counter none = pos 1
next_counter (some n) = if eqb_ℕ n 0 then pos 1 else add_one n

unfoldable pub create_output_params : Event → Event
create_output_params event = record {
  channels = passed_on event.channels;
  component = event.component;
  counter = set (next_counter (value event.counter));
  emoji = set ":robot_face:";
  exception = unset;
  message_content = unset;
  monitoring_slack_channel = set (slack_channel event.monitoring_slack_channel);
  pager_duty_description = unset;
  pager_duty_event_type = unset;
  notify_pager_duty = passed_on event.notify_pager_duty;
  recycle_success = unset;
  status = set (flag true);
  success_channel = event.success_channel;
  team = passed_on event.team;
  text = set ("*" <> (event.component <> "*"));
  username = set "AutoRecycling";
}
