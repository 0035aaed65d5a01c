-- ===== src/ScaleAsg/Tests.antt =====
-- The scaling lambda at concrete inputs: a site with two groups of one component.
use aws_autorecycle.Base.{
  ℕ, ◌+◌, String, ◌≡◌, refl, ◌↔◌, inl, true, false, none, some, List, [], ◌∷◌, map, pos, subn_az,
  strip_prefix,
}
use aws_autorecycle.Base.Dict.{Dict}
use aws_autorecycle.Exceptions.{Exception, ok}
use aws_autorecycle.Effect.Follows.{Follows}
use aws_autorecycle.ScaleAsg.Event.{Event, unset, value}
use aws_autorecycle.ScaleAsg.Services.{Services, Asg, Activity}
use aws_autorecycle.ScaleAsg.Autoscaling.{matches}
use aws_autorecycle.ScaleAsg.NextAction.{get_next_asg_action}
use aws_autorecycle.ScaleAsg.NextAction.Choice.{AllRecycled, get_next_asg_action-none_iff}
use aws_autorecycle.ScaleAsg.Handler.{handle_event, timed_out}
use aws_autorecycle.ScaleAsg.Handler.Protocol.{start, next_state}
use aws_autorecycle.ScaleAsg.Handler.Order.{Turned, turn_order}
use aws_autorecycle.ScaleAsg.Handler.Counter.{invocations, invocations-timed_out}

abbrev group : String → String → Asg
group name version = record {
  name = name;
  instances = record { instance_id = "i-1"; launch_template = some version } ∷ [];
  launch_template = some "7";
}

abbrev groups : List Asg
groups = group "web-asg-a1" "7" ∷ group "web-asg-b2" "6" ∷ group "website-asg-c3" "7" ∷ []

abbrev ended : ℕ → Activity
ended t = record { progress = some 100; status_code = some "Successful"; end_time = some t }

-- The state of the world is the time. An activity ended a minute ago.
abbrev site : Services
site = record {
  World = ℕ;
  describe_groups = λ t. (ok (groups ∷ []), t);
  describe_activities = λ name count t. (ok (ended t ∷ []), t + 60);
  execute_policy = λ name policy t. (ok tt, t);
  now = λ t. (t, t);
}

abbrev repr : Exception → String
repr e = "Exception()"

abbrev first_event : Event
first_event = record {
  channels = unset;
  component = "web";
  counter = unset;
  emoji = unset;
  exception = unset;
  message_content = unset;
  monitoring_slack_channel = unset;
  pager_duty_description = unset;
  pager_duty_event_type = unset;
  notify_pager_duty = unset;
  recycle_success = unset;
  status = unset;
  success_channel = "event-recycling";
  team = unset;
  text = unset;
  username = unset;
}

matches_tests :
    map (matches "web") ("web-asg-a1" ∷ "website-asg-a1" ∷ "web-asg-A" ∷ "web_a-asg-1" ∷ [])
    ≡ true ∷ false ∷ false ∷ false ∷ []
unfolding matches subn_az strip_prefix
matches_tests = refl

az_tests : map (matches "web_a") ("web_b-asg-a1" ∷ "web-asg-a1" ∷ []) ≡ true ∷ false ∷ []
unfolding matches subn_az strip_prefix
az_tests = refl

turn_order_example :
    Follows
      (next_state "web")
      start
      (Turned repr first_event)
      (handle_event site (some "qa") repr first_event)
turn_order_example = turn_order site (some "qa") repr first_event (inl refl)

invocations-timed_out_example :
    (o : Event) × ((invocations site none repr 60 first_event 0).result ≡ ok o)
    × (value o.counter ≡ some (pos 60))
    × (invocations site none repr 61 first_event 0
        ≡ record (invocations site none repr 60 first_event 0) { result = ok (timed_out o) })
invocations-timed_out_example = invocations-timed_out site none repr first_event 0 refl

abbrev last_activities : Dict Activity
last_activities = ("web-asg-a1", ended 900) ∷ ("web-asg-b2", ended 960) ∷ []

abbrev recycled : List Asg
recycled = group "web-asg-a1" "7" ∷ group "web-asg-b2" "7" ∷ []

get_next_asg_action-none_iff_example :
    ((get_next_asg_action site recycled last_activities 1000).result ≡ ok none)
    ↔ AllRecycled site last_activities 1000 recycled
get_next_asg_action-none_iff_example =
    get_next_asg_action-none_iff site last_activities recycled 1000
