-- ===== src/Invoke/Component/RoundTrip.antt =====
-- The component of a group's name, from the events that are about a group.
use aws_autorecycle.Base.{
  String, ◌<>◌, ◌≡◌, ◌≢◌, refl, ◌∙◌, true, false, some, before, arith, eq_iff,
}
use text.Mathlib.TextLemmas.{append_assoc}
use aws_autorecycle.Base.Text.Split.{Lacks, before-append}
use aws_autorecycle.Exceptions.{ok}
use aws_autorecycle.Json.{str, arr, obj, cons, Items, Fields, lookup}
use aws_autorecycle.Invoke.Component.{
  dict_at, is_tag_event, is_unchanged, unless_empty, component_of_tags, component_of_update,
  get_component_name,
}

-- The event is about the group of this name: its launch template or configuration was set, or its
-- tags were written or deleted.
pub data Names (event : Fields) (name : String) : Type 0 where
  updated :
      {detail params : Fields}
      → dict_at "detail" event ≡ some detail
      → dict_at "requestParameters" detail ≡ some params
      → is_tag_event detail ≡ false
      → is_unchanged params ≡ false
      → lookup "autoScalingGroupName" params ≡ some (str name)
      → Names event name
  tagged :
      {detail params tag : Fields} {more : Items}
      → dict_at "detail" event ≡ some detail
      → dict_at "requestParameters" detail ≡ some params
      → is_tag_event detail ≡ true
      → lookup "tags" params ≡ some (arr (cons (obj tag) more))
      → lookup "resourceId" tag ≡ some (str name)
      → Names event name

component_of_tags-name :
    (params tag : Fields) (more : Items) (name : String)
    → lookup "tags" params ≡ some (arr (cons (obj tag) more))
    → lookup "resourceId" tag ≡ some (str name)
    → component_of_tags params ≡ ok (unless_empty (before "-asg-" name))
unfolding component_of_tags
component_of_tags-name params tag more name g r = rw (component_of_tags, g, r) refl

get_component_name-Names :
    (event : Fields) (name : String)
    → Names event name
    → get_component_name event ≡ ok (unless_empty (before "-asg-" name))
unfolding get_component_name component_of_tags component_of_update
get_component_name-Names event name (updated d p t u g) =
    rw (get_component_name, d, p, t, u, g) refl
get_component_name-Names event name (tagged d p t g r) =
    rw (get_component_name, d, p, t) (component_of_tags-name _ _ _ name g r)

-- A group is named after its component, "-asg-" and a suffix. From each event about it that counts,
-- the component is read back, unless it is empty or "-asg-" begins in it.
pub get_component_name-group_name :
    (event : Fields) (component suffix : String)
    → Names event (component <> ("-asg-" <> suffix))
    → component ≢ ""
    → Lacks "-asg-" (component <> "-asg")
    → get_component_name event ≡ ok (some component)
get_component_name-group_name event component suffix names ne lacks =
    let spelled : "-asg-" <> suffix ≡ "-asg" <> ("-" <> suffix) = append_assoc "-asg" "-" suffix in
    let part : before "-asg-" (component <> ("-asg-" <> suffix)) ≡ component =
      rw spelled (before-append "-asg" "-" (omega arith) component suffix lacks) in
    get_component_name-Names event _ names ∙ rw part (ground (arith, eq_iff component ""))
