-- ===== src/ScaleAsg/Autoscaling.antt =====
-- src/autorecycle_scale_asg/autoscaling.py
pub mod Groups
use Prim.Native.Char.{Char, code}
use aws_autorecycle.Base.{
  String, ◌<>◌, Bool, true, false, ◌&&◌, ◌||◌, Option, none, some, List, [], ◌∷◌, ◌++◌, leb, eqb,
  select, subn_az, strip_prefix, if◌then◌else◌,
}
use aws_autorecycle.Exceptions.{Result, ok, err, NoneType, exception}
use aws_autorecycle.Effect.{lift, pure, ◌>>=◌}
use aws_autorecycle.ScaleAsg.Services.{
  Services, Run, Asg, Activity, describe_groups, describe_activities, execute_policy,
}

-- `[a-z\d]`, for the ASCII characters that the name of a group is made of
is_suffix_char : Char → Bool
is_suffix_char c =
    (leb b'a' (code c) && leb (code c) b'z') || (leb b'0' (code c) && leb (code c) b'9')

-- `[a-z\d]*$`: `$` matches at the end, and before a line break that ends the text.
suffix_tail : String → Bool
suffix_tail String.[] = true
suffix_tail (String.◌∷◌ c String.[]) = is_suffix_char c || eqb (code c) 10
suffix_tail (String.◌∷◌ c rest) = is_suffix_char c && suffix_tail rest

-- `[a-z\d]+$`
suffix : String → Bool
suffix String.[] = false
suffix (String.◌∷◌ c rest) = is_suffix_char c && suffix_tail rest

-- `-asg-[a-z\d]+$`
asg_part : String → Bool
asg_part s = elim (strip_prefix "-asg-" s) [ none ↦ false | some rest ↦ suffix rest ]

-- `_[abc]` in front of that
az_part : String → Bool
az_part s = elim (strip_prefix "_a" s) [
  | some rest ↦ asg_part rest
  | none ↦ elim (strip_prefix "_b" s) [
    | some rest ↦ asg_part rest
    | none ↦ elim (strip_prefix "_c" s) [ some rest ↦ asg_part rest | none ↦ false ]
  ]
]

-- The matcher for a component whose name is made of characters that stand for themselves in a regular
-- expression. With an availability zone in the component's name one is wanted in the group's.
unfoldable pub matches : String → String → Bool
unfolding az_part asg_part suffix suffix_tail is_suffix_char
matches component name = elim (subn_az component) [
  | none ↦ elim (strip_prefix component name) [ none ↦ false | some rest ↦ asg_part rest ]
  | some bare ↦ elim (strip_prefix bare name) [ none ↦ false | some rest ↦ az_part rest ]
]

-- `component_name`, for the message
abbrev bare_name : String → String
bare_name component = elim (subn_az component) [ none ↦ component | some bare ↦ bare ]

unfoldable pub concat : List (List Asg) → List Asg
concat [] = []
concat (page ∷ pages) = page ++ concat pages

unfoldable pub found_or_raise : String → List Asg → Result (List Asg)
found_or_raise component [] = err (
    exception
      ("Could not find ASGs matching: `^" <> (bare_name component <> "(_[abc])?-asg-[a-z\\d]+$`.")))
found_or_raise component (asg ∷ asgs) = ok (asg ∷ asgs)

-- What the code takes for the last activity of a group that has had none for six weeks.
abbrev pub no_activity : Activity
no_activity = record { progress = some 100; status_code = some "Successful"; end_time = none }

abbrev pub latest : List Activity → Activity
latest [] = no_activity
latest (a ∷ rest) = a

module _ (S : Services) where
  unfoldable pub describe_asg : String → Run S (List Asg)
  unfolding concat
  describe_asg component = do
    pages ← describe_groups S
    lift (found_or_raise component (select (λ a. matches component a.name) (concat pages)))

  unfoldable pub describe_scaling_activities : String → Run S Activity
  describe_scaling_activities name = do
    activities ← describe_activities S name 1
    pure (latest activities)

  -- The handler of its `except` raises the exception again.
  unfoldable pub execute_scaling_policy : String → String → Run S NoneType
  execute_scaling_policy name policy = execute_policy S name policy
