-- ===== src/Invoke/Component.antt =====
-- src/autorecycle_invoke_stepfunctions/get_component_details.py: which component an event is about.
-- Logging is left out.
pub mod RoundTrip
use Prim.Native.String.{String as Text}
use aws_autorecycle.Base.{
  String, Bool, true, false, not, ◌&&◌, ◌||◌, Option, none, some, ◌==◌, before, if◌then◌else◌,
}
use aws_autorecycle.Exceptions.{
  Result, ok, err, required, key_error, index_error, type_error, attribute_error, ◌>>=◌,
}
use aws_autorecycle.Json.{
  Json, null, bool, num, str, arr, obj, nil, cons, Fields, lookup, contains, get_item, truthy,
}

-- `value[0]`
abbrev first_item : Json → Result Json
first_item (arr nil) = err index_error
first_item (arr (cons v vs)) = ok v
first_item (str Text.[]) = err index_error
first_item (str (Text.◌∷◌ c s)) = ok (str (Text.◌∷◌ c Text.[]))
first_item (obj d) = err (key_error "0")
first_item _ = err type_error

-- `value[key]`
abbrev item : String → Json → Result Json
item key (obj d) = get_item d key
item key _ = err type_error

-- `value.split("-asg-")[0]`
abbrev component_part : Json → Result String
component_part (str name) = ok (before "-asg-" name)
component_part _ = err attribute_error

-- `key not in d or not isinstance(d[key], dict)`: `none`, or the dictionary
abbrev dict_at : String → Fields → Option Fields
dict_at key d = elim (lookup key d) [ some (obj inner) ↦ some inner | _ ↦ none ]

-- `not component_name`
abbrev unless_empty : String → Option String
unless_empty component = if component == "" then none else some component

-- `event["detail"].get("eventName") in ["CreateOrUpdateTags", "DeleteTags"]`
abbrev is_tag_event : Fields → Bool
is_tag_event detail = elim (lookup "eventName" detail) [
  | some (str name) ↦ name == "CreateOrUpdateTags" || name == "DeleteTags"
  | _ ↦ false
]

unfoldable pub component_of_tags : Fields → Result (Option String)
component_of_tags params = elim (lookup "tags" params) [
  | none ↦ ok none
  | some tags ↦ do
    tag ← first_item tags
    resource ← item "resourceId" tag
    component ← component_part resource
    ok (unless_empty component)
]

-- `"launchConfigurationName" not in ... and "launchTemplate" not in ...`
abbrev is_unchanged : Fields → Bool
is_unchanged params =
    not (contains "launchConfigurationName" params) && not (contains "launchTemplate" params)

unfoldable pub component_of_update : Fields → Result (Option String)
component_of_update params = do
  group ← get_item params "autoScalingGroupName"
  component ← component_part group
  ok (if is_unchanged params then none else unless_empty component)

unfoldable pub get_component_name : Fields → Result (Option String)
get_component_name event = elim (dict_at "detail" event) [
  | none ↦ ok none
  | some detail ↦ elim (dict_at "requestParameters" detail) [
    | none ↦ ok none
    | some params ↦
        if is_tag_event detail then component_of_tags params else component_of_update params
  ]
]

unfoldable pub assert_recyclable : Fields → Bool
assert_recyclable asg_tags = elim (lookup "autorecycle_recycle_on_asg_update" asg_tags) [
  | none ↦ false
  | some recycle ↦ if contains "autorecycle_strategy" asg_tags then truthy recycle else false
]
