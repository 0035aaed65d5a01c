-- ===== src/Invoke/Tags.antt =====
-- src/autorecycle_invoke_stepfunctions/aws.py: the tags of a group that say how to recycle it.
pub mod Values
use Prim.Native.Char.{code}
use Prim.Native.String.{String as Text}
use aws_autorecycle.Base.{
  ℕ, ◌+◌, String, ◌<>◌, Bool, true, false, ◌&&◌, Option, none, some, List, [], ◌∷◌, ◌++◌, leb, eqb,
  ◌==◌, if◌then◌else◌,
}
use aws_autorecycle.Exceptions.{Result, ok, err, stop_iteration}
use aws_autorecycle.Effect.{lift, pure, ◌>>=◌}
use aws_autorecycle.Json.{Json, bool, str, Fields, end, insert}
use aws_autorecycle.Invoke.Services.{Services, Run, Tag, search_groups, describe_tags}

-- The two comprehensions over `autorecycle_tag_names`, by the kind of the tag.
abbrev pub string_tags : List String
string_tags =
    "autorecycle_override_component_name" ∷ "autorecycle_strategy"
    ∷ "autorecycle_slack_monitoring_channel" ∷ "autorecycle_team" ∷ "autorecycle_step_function_name"
    ∷ []

abbrev pub boolean_tags : List String
boolean_tags =
    "autorecycle_recycle_on_asg_update" ∷ "autorecycle_notify_pager_duty" ∷ "autorecycle_dry_run"
    ∷ []

-- `list(autorecycle_tag_names.keys())`
abbrev pub tag_names : List String
tag_names =
    "autorecycle_override_component_name" ∷ "autorecycle_recycle_on_asg_update"
    ∷ "autorecycle_strategy" ∷ "autorecycle_slack_monitoring_channel"
    ∷ "autorecycle_notify_pager_duty" ∷ "autorecycle_team" ∷ "autorecycle_step_function_name"
    ∷ "autorecycle_dry_run" ∷ []

-- `_get_tag_values`
unfoldable pub get_tag_values : List Tag → String → List String
get_tag_values [] name = []
get_tag_values (tag ∷ tags) name =
    let values = get_tag_values tags name in
    if tag.key == name then tag.content ∷ values else values

-- The code of a letter in lower case, for ASCII.
abbrev lower : ℕ → ℕ
lower c = if leb b'A' c && leb c b'Z' then c + 32 else c

-- `text.lower() == other`
unfoldable pub lowers_to : String → String → Bool
lowers_to Text.[] Text.[] = true
lowers_to Text.[] (Text.◌∷◌ d other) = false
lowers_to (Text.◌∷◌ c text) Text.[] = false
lowers_to (Text.◌∷◌ c text) (Text.◌∷◌ d other) =
    eqb (lower (code c)) (code d) && lowers_to text other

-- `if values: tags[tag_name] = ...`
unfoldable pub add_tag : (String → Json) → String → List Tag → Fields → Fields
add_tag read name response tags = elim (get_tag_values response name) [
  | [] ↦ tags
  | value ∷ values ↦ insert name (read value) tags
]

-- A loop over the names of one kind.
unfoldable pub add_tags : (String → Json) → List String → List Tag → Fields → Fields
add_tags read [] response tags = tags
add_tags read (name ∷ names) response tags =
    add_tags read names response (add_tag read name response tags)

-- `values[0].lower() == "true"`
unfoldable pub read_boolean : String → Json
read_boolean value = bool (lowers_to value "true")

unfoldable pub collect_tags : List Tag → Fields
collect_tags response =
    add_tags read_boolean boolean_tags response (add_tags str string_tags response end)

-- The groups whose tag "Name" has the component as its value.
abbrev pub group_query : String → String
group_query component =
    "AutoScalingGroups[] | [?contains(Tags[?Key==`Name`].Value, `" <> (component <> "`)]")

module _ (S : Services) where
  -- `next` of the groups that were found
  abbrev pub next : List String → Result String
  next [] = err stop_iteration
  next (group ∷ groups) = ok group

  unfoldable pub get_asg : String → Run S String
  get_asg component = do groups ← search_groups S (group_query component); lift (next groups)

  unfoldable pub get_autorecycling_tags : String → Run S Fields
  get_autorecycling_tags group = do
    response ← describe_tags S group tag_names
    pure (collect_tags response)
