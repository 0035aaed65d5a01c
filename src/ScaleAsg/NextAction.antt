-- ===== src/ScaleAsg/NextAction.antt =====
-- src/autorecycle_scale_asg/autorecycle.py, but for `create_output_params`
pub mod Choice
use aws_autorecycle.Base.{
  ℕ, ◌+◌, ◌*◌, String, Bool, true, false, not, ◌&&◌, Option, none, some, List, [], ◌∷◌, eqb, ltb,
  ◌==◌, if◌then◌else◌,
}
use aws_autorecycle.Base.Dict.{Dict, lookup}
use aws_autorecycle.Exceptions.{required}
use aws_autorecycle.Effect.{lift, pure, ◌>>=◌}
use aws_autorecycle.ScaleAsg.Services.{Services, Run, Asg, AsgInstance, Activity, now}

pub data Direction : Type 0 where
  scale_in scale_out : Direction

pub record NextAsgAction : Type 0 where
  pub asg_name : String
  pub action : Direction

-- `activity.get("Progress") != 100` is false
unfoldable pub is_complete : Activity → Bool
is_complete activity = elim activity.progress [ none ↦ false | some n ↦ eqb n 100 ]

unfoldable pub get_overall_progress : List Activity → Bool
get_overall_progress [] = true
get_overall_progress (activity ∷ activities) =
    if is_complete activity then get_overall_progress activities else false

-- `activity.get("StatusCode") != "Successful"` is false
unfoldable pub is_successful : Activity → Bool
is_successful activity = elim activity.status_code [ none ↦ false | some s ↦ s == "Successful" ]

unfoldable pub get_overall_statuscode : List Activity → Bool
get_overall_statuscode [] = true
get_overall_statuscode (activity ∷ activities) =
    if is_successful activity then get_overall_statuscode activities else false

-- The age that `recently_scaled` has by default, in seconds.
abbrev pub min_age : ℕ
min_age = 10 * 60

-- The comparison of `recently_scaled`, with the clock's time.
unfoldable pub ended_since : ℕ → Activity → Bool
ended_since t activity = elim activity.end_time [
  | none ↦ false
  | some ended ↦ ltb t (ended + min_age)
]

-- `get_launch_template_version` of the group and of the instance, and the test on them
unfoldable pub is_current : Bool → Option String → AsgInstance → Bool
is_current recent none i = false
is_current recent (some version) i = elim i.launch_template [
  | none ↦ false
  | some version' ↦ version == version' && recent
]

-- The loop over the instances of a group: one of them is to be terminated.
unfoldable pub has_stale : Bool → Option String → List AsgInstance → Bool
has_stale recent version [] = false
has_stale recent version (i ∷ instances) =
    if is_current recent version i then has_stale recent version instances else true

-- The first loop over the groups.
unfoldable pub first_empty : List Asg → Option String
first_empty [] = none
first_empty (asg ∷ asgs) = elim asg.instances [ [] ↦ some asg.name | i ∷ rest ↦ first_empty asgs ]

module _ (S : Services) where
  -- The clock is read before the activity is looked at.
  unfoldable pub recently_scaled : Activity → Run S Bool
  recently_scaled activity = do t ← now S; pure (ended_since t activity)

  -- The second loop over the groups.
  unfoldable pub first_stale : Dict Activity → List Asg → Run S (Option NextAsgAction)
  first_stale last_activities [] = pure none
  first_stale last_activities (asg ∷ asgs) =
      let rest = first_stale last_activities asgs in
      do
        activity ← lift (required asg.name (lookup asg.name last_activities))
        recent ← recently_scaled activity
        if has_stale recent asg.launch_template asg.instances
            then pure (some (record { asg_name = asg.name; action = scale_in }))
            else rest

  unfoldable pub get_next_asg_action : List Asg → Dict Activity → Run S (Option NextAsgAction)
  get_next_asg_action asgs last_activities = elim (first_empty asgs) [
    | some name ↦ pure (some (record { asg_name = name; action = scale_out }))
    | none ↦ first_stale last_activities asgs
  ]
