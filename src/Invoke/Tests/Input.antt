-- ===== src/Invoke/Tests/Input.antt =====
-- The input of that start, with a small reader in the place of pydantic's.
use mathlib.Core.Bool.{and-eq-true_iff}
use aws_autorecycle.Base.{
  ℤ, String, ◌≡◌, refl, true, false, Option, none, some, List, [], ◌∷◌, All, arith,
}
use aws_autorecycle.Exceptions.{Result, ok, err, type_error, ◌>>=◌}
use aws_autorecycle.Json.{Json, bool, null, num, str, arr, obj, Fields, end, field, lookup}
use aws_autorecycle.ScaleAsg.Event.{Event, Field, unset, set}
use aws_autorecycle.ScaleAsg.Schema.{
  Declared, Basic, Kind, basic, field_fits, conforms, fits, fits_basic, event_schema,
}
use aws_autorecycle.Flows.Input.Accepted.{Reads, Validates, Starts, lambda_handler-Starts}
use aws_autorecycle.Invoke.Tests.{site, tags, environment, update, show, answers, asked}

abbrev text_at : String → Fields → Result String
text_at key d = elim (lookup key d) [ some (str s) ↦ ok s | _ ↦ err type_error ]

abbrev counter_at : Fields → Field ℤ
counter_at d = elim (lookup "counter" d) [ some (num n) ↦ set n | _ ↦ unset ]

abbrev event_of : String → String → Field ℤ → Event
event_of component channel counter = record {
  channels = unset;
  component = component;
  counter = counter;
  emoji = unset;
  exception = unset;
  message_content = unset;
  monitoring_slack_channel = unset;
  pager_duty_description = unset;
  pager_duty_event_type = unset;
  notify_pager_duty = unset;
  recycle_success = unset;
  status = unset;
  success_channel = channel;
  team = unset;
  text = unset;
  username = unset;
}

-- Reads the fields that the test looks at.
abbrev validate : Fields → Result Event
validate d = do
  component ← text_at "component" d
  channel ← text_at "success_channel" d
  ok (event_of component channel (counter_at d))

abbrev dump : Event → Fields
dump event = field "component" (str event.component) end

conforms-All :
    (fields : List (Declared Kind)) (d : Fields)
    → conforms fits fields d ≡ true
    → All (λ f. field_fits fits f (lookup f.name d) ≡ true) fields
unfolding conforms
conforms-All [] d h = tt
conforms-All (f ∷ fields) d h =
    let (here, later) = (and-eq-true_iff _ _).0 h in (here, conforms-All fields d later)

abbrev needed : String → Declared Kind
needed key = record { name = key; kind = basic Basic.text; optional = false; required = true }

text_of :
    (key : String) (found : Option Json)
    → field_fits fits (needed key) found ≡ true
    → (s : String) × (found ≡ some (str s))
unfolding fits fits_basic
text_of key (some (str s)) h = (s, refl)
text_of key none h = absurd (ground (arith, h))
text_of key (some null) h = absurd (ground (arith, h))
text_of key (some (bool b)) h = absurd (ground (arith, h))
text_of key (some (num n)) h = absurd (ground (arith, h))
text_of key (some (arr vs)) h = absurd (ground (arith, h))
text_of key (some (obj e)) h = absurd (ground (arith, h))

validate-Reads :
    (d : Fields) (component channel : String)
    → lookup "component" d ≡ some (str component)
    → lookup "success_channel" d ≡ some (str channel)
    → (event : Event) × (validate d ≡ ok event) × Reads d event
validate-Reads d component channel c s = (
  event_of component channel (counter_at d),
  rw (c, s, validate, text_at) refl,
  record { component = c; success_channel = s; no_counter = λ e. rw (counter_at, e) refl },
)

validate-Validates : Validates validate
validate-Validates d h =
    let all = conforms-All event_schema d h in
    let (component, c) = text_of "component" (lookup "component" d) all.1.0 in
    let (channel, s) =
      text_of "success_channel" (lookup "success_channel" d) all.1.1.1.1.1.1.1.1.1.1.1.1.0 in
    validate-Reads d component channel c s

lambda_handler-Starts_example :
    Starts site show environment update 0 validate dump "web-asg-a1" "web" "web"
lambda_handler-Starts_example =
    lambda_handler-Starts site show environment update 0 validate dump validate-Validates "1234"
      "events" "web-asg-a1" "web" tags answers asked
