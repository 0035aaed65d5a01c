-- ===== src/Flows/Group.antt =====
-- From an event about a group to the recycling of that group: src/autorecycle_invoke_stepfunctions
-- reads the component, by which src/autorecycle_scale_asg finds the groups.
use aws_autorecycle.Base.{String, ◌<>◌, ◌≡◌, ◌≢◌, none, some, true, subn_az}
use aws_autorecycle.Base.Text.Split.{Lacks}
use aws_autorecycle.Exceptions.{ok}
use aws_autorecycle.Json.{Fields}
use aws_autorecycle.Invoke.Component.{get_component_name}
use aws_autorecycle.Invoke.Component.RoundTrip.{Names, get_component_name-group_name}
use aws_autorecycle.ScaleAsg.Autoscaling.{matches}
use aws_autorecycle.ScaleAsg.Autoscaling.Groups.{IsPlain, matches-group_name}

-- An event about a group that is named after a component gives this component, and the recycling of
-- the component finds the group again: the component is not empty, names no zone and "-asg-" does not
-- begin in it, and the rest of the name is of lower case letters and digits, and not empty.
pub matches-get_component_name :
    (event : Fields) (component suffix : String)
    → Names event (component <> ("-asg-" <> suffix))
    → component ≢ ""
    → Lacks "-asg-" (component <> "-asg")
    → subn_az component ≡ none
    → IsPlain suffix
    → suffix ≢ ""
    → (get_component_name event ≡ ok (some component))
      × (matches component (component <> ("-asg-" <> suffix)) ≡ true)
matches-get_component_name event component suffix names ne lacks bare plain filled = (
  get_component_name-group_name event component suffix names ne lacks,
  matches-group_name component suffix bare plain filled,
)
