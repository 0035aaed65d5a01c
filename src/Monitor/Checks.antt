-- ===== src/Monitor/Checks.antt =====
-- src/monitor_autorecycle/main.py: `check` and what it calls. Logging is left out.
pub mod Times
pub mod Recycled
use Prim.Native.String.{String as Text}
use aws_autorecycle.Base.{
  ℕ, ◌+◌, ◌*◌, String, ◌<>◌, Bool, true, false, ◌||◌, ◌&&◌, Option, none, some, List, [], ◌∷◌, ◌++◌,
  leb, eqb, ltb, ◌==◌, starts_with, select, if◌then◌else◌,
}
use aws_autorecycle.Exceptions.{Result, ok, err, exception, scaled_down_asg}
use aws_autorecycle.Effect.{lift, pure, ◌>>=◌}
use aws_autorecycle.Monitor.Services.{
  Services, Run, Instance, Asg, Activity, describe_groups, describe_activities,
}

-- `part in text`
unfoldable pub is_within : String → String → Bool
is_within part Text.[] = part == ""
is_within part (Text.◌∷◌ c text) = starts_with (Text.◌∷◌ c text) part || is_within part text

-- `sorted(times)`
insert_sorted : ℕ → List ℕ → List ℕ
insert_sorted t [] = t ∷ []
insert_sorted t (u ∷ times) = if leb t u then t ∷ u ∷ times else u ∷ insert_sorted t times

unfoldable pub sorted : List ℕ → List ℕ
unfolding insert_sorted
sorted [] = []
sorted (t ∷ times) = insert_sorted t (sorted times)

-- `times[-1]`, if there is one
unfoldable pub last : List ℕ → Option ℕ
last [] = none
last (t ∷ []) = some t
last (t ∷ u ∷ times) = last (u ∷ times)

abbrev start_times : List Activity → List ℕ
start_times [] = []
start_times (a ∷ activities) = a.start_time ∷ start_times activities

unfoldable pub get_launching_activities : List Activity → List Activity
unfolding is_within
get_launching_activities activities = select (λ a. is_within "Launching" a.description) activities

unfoldable pub last_instance_activity_time : List Activity → String → Option ℕ
unfolding is_within sorted last
last_instance_activity_time activities instance_id =
    last (sorted (start_times (select (λ a. is_within instance_id a.description) activities)))

-- `a - b > diff or b - a > diff`
abbrev apart : ℕ → ℕ → ℕ → Bool
apart diff a b = ltb (b + diff) a || ltb (a + diff) b

-- The pairs of one time with those behind it.
near_all : ℕ → ℕ → List ℕ → Bool
near_all diff a [] = true
near_all diff a (b ∷ times) = if apart diff a b then false else near_all diff a times

-- `itertools.combinations(times, 2)` has the pairs of the first time, then those of the others.
unfoldable pub compare_start_times : List ℕ → ℕ → Bool
unfolding near_all
compare_start_times [] delta = true
compare_start_times (t ∷ times) delta =
    if near_all (delta * 60) t times then compare_start_times times delta else false

abbrev is_in_service : Instance → Bool
is_in_service i = i.health_status == "Healthy" && i.lifecycle_state == "InService"

-- The loop: the times, or `none` if it returned `False`.
unfoldable pub gather_times : List Activity → List Instance → Option (List ℕ)
gather_times launching [] = some []
gather_times launching (i ∷ instances) =
    let rest = gather_times launching instances in
    if is_in_service i
    then elim (last_instance_activity_time launching i.instance_id) [
      | none ↦ none
      | some t ↦ elim rest [ none ↦ none | some times ↦ some (t ∷ times) ]
    ]
    else none

unfoldable pub check_instances : Asg → List Activity → Bool
check_instances asg launching = elim (gather_times launching asg.instances) [
  | none ↦ false
  | some times ↦ compare_start_times times 2
]

concat : List (List Asg) → List Asg
concat [] = []
concat (page ∷ pages) = page ++ concat pages

-- What follows the comprehension in `_describe_asg`.
unfoldable pub first_in_use : String → List Asg → Result Asg
first_in_use component [] = err (exception ("No ASG found for " <> component))
first_in_use component (asg ∷ rest) =
    if eqb asg.max_size 0 then err scaled_down_asg else elim asg.instances [
      | [] ↦ err (exception ("No ASG found for " <> component))
      | i ∷ instances ↦ ok asg
    ]

-- `check` behind the two calls
unfoldable pub check_activities : Asg → List Activity → Bool
check_activities asg activities =
    elim (get_launching_activities activities) as (λ launching. Bool) [
      | [] ↦ false
      | a ∷ launching ↦ check_instances asg (a ∷ launching)
    ]

module _ (S : Services) where
  unfoldable pub describe_asg : String → Run S Asg
  unfolding concat
  describe_asg component = do
    pages ← describe_groups S
    lift (
        first_in_use component
          (select (λ asg. starts_with asg.name (component <> "-asg")) (concat pages)))

  abbrev pub describe_scaling_activities : String → Run S (List Activity)
  describe_scaling_activities asg_name = describe_activities S asg_name 20

  unfoldable pub check : String → Run S Bool
  check component = do
    asg ← describe_asg component
    activities ← describe_scaling_activities asg.name
    pure (check_activities asg activities)
