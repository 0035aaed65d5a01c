-- ===== src/Flows/Input.antt =====
-- The input of an execution, from src/autorecycle_invoke_stepfunctions, as the event of
-- src/autorecycle_scale_asg.
pub mod Accepted
use mathlib.Core.Option
use aws_autorecycle.Base.{
  String, ◌≡◌, refl, ap, ◌∙◌, inl, inr, Bool, true, false, ◌&&◌, Option, none, some, List, [], ◌∷◌,
  arith, Option-cases,
}
use aws_autorecycle.Json.{Json, bool, str, Fields, lookup}
use aws_autorecycle.Invoke.Services.{Tag}
use aws_autorecycle.Invoke.Tags.{collect_tags, read_boolean}
use aws_autorecycle.Invoke.Tags.Values.{first_value, lookup-collect_tags}
use aws_autorecycle.Invoke.Handler.Payload.{IsPayload}
use aws_autorecycle.ScaleAsg.Schema.{
  Declared, Basic, flag, Kind, basic, field_fits, conforms, fits, fits_basic, event_schema,
}

abbrev field : String → Bool → Basic → Declared Kind
field key optional b = record { name = key; kind = basic b; optional = optional; required = false }

-- What a tag says has the type of its key.
fits_text :
    (key : String) (optional : Bool) (found : Option String)
    → field_fits fits (field key optional Basic.text) (Option.map str found) ≡ true
unfolding fits fits_basic
fits_text key true none = refl
fits_text key true (some v) = refl
fits_text key false none = refl
fits_text key false (some v) = refl

fits_flag :
    (key : String) (found : Option String)
    → field_fits fits (field key true flag) (Option.map read_boolean found) ≡ true
unfolding fits fits_basic read_boolean
fits_flag key none = refl
fits_flag key (some v) = refl

all_three : {a b c : Bool} → a ≡ true → b ≡ true → c ≡ true → (a && (b && (c && true))) ≡ true
all_three h i j = ground (arith, h, i, j)

module _ (account channel group component : String) (tags : List Tag) (payload : Fields)
    (input : IsPayload account channel group (str component) (collect_tags tags) payload) where
  -- Whatever the tags of the group are, the input has a value of the declared type for each key of an
  -- event that it has, and has those that an event needs.
  pub input-conforms : conforms fits event_schema payload ≡ true
  unfolding conforms fits fits_basic
  input-conforms =
      rw
        (
          input.of_component,
          input.success_channel,
          input.emoji,
          input.only "channels" refl refl,
          input.only "counter" refl refl,
          input.only "exception" refl refl,
          input.only "message_content" refl refl,
          input.only "pager_duty_description" refl refl,
          input.only "pager_duty_event_type" refl refl,
          input.only "recycle_success" refl refl,
          input.only "status" refl refl,
          input.only "text" refl refl,
          input.only "username" refl refl,
          input.copied.1.0 ∙ lookup-collect_tags "autorecycle_slack_monitoring_channel" tags,
          input.copied.1.1.0 ∙ lookup-collect_tags "autorecycle_notify_pager_duty" tags,
          input.copied.1.1.1.0 ∙ lookup-collect_tags "autorecycle_team" tags,
        )
        (all_three
          (fits_text "monitoring_slack_channel" false
            (first_value "autorecycle_slack_monitoring_channel" tags))
          (fits_flag "notify_pager_duty" (first_value "autorecycle_notify_pager_duty" tags))
          (fits_text "team" true (first_value "autorecycle_team" tags)))
