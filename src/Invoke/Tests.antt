-- ===== src/Invoke/Tests.antt =====
-- The start of a recycling at concrete inputs: a site with one group, whose tags ask for it.
mod Input
use aws_autorecycle.Base.{
  ◌↔◌, ◌⊎◌, ℕ, ◌+◌, String, ◌≡◌, refl, true, none, some, List, [], ◌∷◌, has, ◌==◌, before,
  strip_prefix, arith, eq_iff, if◌then◌else◌,
}
use mathlib.Core.Option
use aws_autorecycle.Exceptions.{ok, client_error, err}
use aws_autorecycle.Json.{Json, bool, str, arr, obj, nil, cons, Fields, end, field, lookup, insert}
use aws_autorecycle.Invoke.Services.{
  Services, Tag, Environment, Call, searched_groups, described_tags,
}
use aws_autorecycle.Invoke.Component.{get_component_name, component_of_update, component_of_tags}
use aws_autorecycle.Invoke.Component.RoundTrip.{Names, updated, get_component_name-group_name}
use aws_autorecycle.Invoke.Tags.{
  group_query, tag_names, string_tags, boolean_tags, read_boolean, collect_tags, get_tag_values,
  add_tag, add_tags, lowers_to,
}
use aws_autorecycle.Invoke.Tags.Values.{first_value, lookup-collect_tags}
use aws_autorecycle.Invoke.Handler.{construct_payload, lambda_handler}
use aws_autorecycle.Invoke.Handler.Failures.{Quiet, lambda_handler-Quiet}
use aws_autorecycle.Invoke.Handler.Forgiven.{IsForgiven, lambda_handler-Forgiven}
use aws_autorecycle.Invoke.Handler.Payload.{IsPayload, construct_payload-IsPayload}
use aws_autorecycle.Flows.Strategy.Named.{Executes, lambda_handler-Executes}
use aws_autorecycle.Invoke.Handler.Starts.{
  asks_for_recycling, Answers, Started, lambda_handler-Started,
}

abbrev tag : String → String → Tag
tag key content = record { key = key; content = content }

abbrev tags : List Tag
tags =
    tag "autorecycle_recycle_on_asg_update" "TRUE"
    ∷ tag "autorecycle_strategy" "in-out"
    ∷ tag "autorecycle_recycle_on_asg_update" "false"
    ∷ []

-- The state of the world is the time.
abbrev site : Services
site = record {
  World = ℕ;
  search_groups = λ query t. (ok (if query == group_query "web" then "web-asg-a1" ∷ [] else []), t);
  describe_tags = λ group keys t. (ok tags, t + 1);
  start_execution = λ arn name input t. (err (client_error "ExecutionAlreadyExists"), t);
  timestamp = λ t. ("20220101120000", t);
}

abbrev environment : Environment
environment = record { account_id = some "1234"; slack_channel = some "events"; environment = none }

abbrev parameters : Fields
parameters = field "autoScalingGroupName" (str "web-asg-a1") (field "launchTemplate" (obj end) end)

abbrev update : Fields
update =
    field "detail"
      (obj (
        field "eventName" (str "UpdateAutoScalingGroup")
          (field "requestParameters" (obj parameters) end)))
      end

abbrev names_web : Names update "web-asg-a1"
unfolding lookup
names_web = updated refl refl refl refl refl

get_component_name-group_name_example : get_component_name update ≡ ok (some "web")
unfolding strip_prefix
get_component_name-group_name_example =
    get_component_name-group_name update "web" "a1" names_web (ground (arith, eq_iff "web" ""))
      (refl, (refl, (refl, (refl, (refl, (refl, (refl, tt)))))))

component_tests :
    (component_of_update (field "autoScalingGroupName" (str "web-asg-a1") end) ≡ ok none)
    × (component_of_tags
          (field "tags" (arr (cons (obj (field "resourceId" (str "db-asg-b") end)) nil)) end)
        ≡ ok (some "db"))
unfolding component_of_update component_of_tags lookup before strip_prefix
component_tests = (refl, refl)

lookup-collect_tags_example : lookup "autorecycle_strategy" (collect_tags tags) ≡ (
    if has (λ name. name == "autorecycle_strategy") boolean_tags
    then Option.map read_boolean (first_value "autorecycle_strategy" tags)
    else if has (λ name. name == "autorecycle_strategy") string_tags
    then Option.map str (first_value "autorecycle_strategy" tags)
    else none)
lookup-collect_tags_example = lookup-collect_tags "autorecycle_strategy" tags

collect_tags_tests :
    collect_tags tags
    ≡ field "autorecycle_strategy"
        (str "in-out")
        (field "autorecycle_recycle_on_asg_update" (bool true) end)
unfolding collect_tags add_tags add_tag get_tag_values insert read_boolean lowers_to
collect_tags_tests = refl

construct_payload-IsPayload_example :
    IsPayload "1234" "events" "web-asg-a1"
      (str "web")
      (collect_tags tags)
      (construct_payload "1234" "events" (str "web") "web-asg-a1" (collect_tags tags))
construct_payload-IsPayload_example =
    construct_payload-IsPayload "1234" "events" "web-asg-a1" (str "web") (collect_tags tags)

abbrev show : Json → String
show v = "{}"

abbrev answers : Answers site environment update 0 "web" "1234" "events" "web-asg-a1" tags
answers = record {
  about = get_component_name-group_name_example;
  account_known = refl;
  channel_known = refl;
  others = [];
  found = refl;
  tagged = refl;
}

lambda_handler-Started_example :
    (started : List Call) × ((lambda_handler site show environment update 0).calls
      ≡ searched_groups (group_query "web") ∷ described_tags "web-asg-a1" tag_names ∷ started)
    × Started site show "1234" "events" "web-asg-a1" "web" tags "20220101120000" started
lambda_handler-Started_example =
    lambda_handler-Started site show "1234" "events" "web-asg-a1" "web" tags environment update 0
      answers

asked : asks_for_recycling tags ≡ true
unfolding lowers_to
asked = refl

unnamed : first_value "autorecycle_step_function_name" tags ≡ none
unnamed = refl

lambda_handler-Executes_example :
    Executes "1234" "events" "web-asg-a1" "web" tags site show environment update 0
lambda_handler-Executes_example =
    lambda_handler-Executes "1234" "events" "web-asg-a1" "web" tags site show environment update 0
      answers asked unnamed

lambda_handler-Quiet_example :
    ((component : String) × (rest : List Call) × (get_component_name end ≡ ok (some component))
      × ((lambda_handler site show environment end 0).calls
          ≡ searched_groups (group_query component) ∷ rest))
    ⊎ (((lambda_handler site show environment end 0).calls ≡ [])
        × ((lambda_handler site show environment end 0).world ≡ 0)
        × Quiet environment end (lambda_handler site show environment end 0).result)
lambda_handler-Quiet_example = lambda_handler-Quiet site show environment end 0

lambda_handler-Forgiven_example :
    ((lambda_handler site show environment update 0).result ≡ ok tt)
    ↔ IsForgiven (err (client_error "ExecutionAlreadyExists"))
lambda_handler-Forgiven_example =
    lambda_handler-Forgiven site show "1234" "events" "web-asg-a1" "web" tags environment update 0
      answers asked
