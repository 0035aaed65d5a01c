-- ===== src/Mongo/Decision.antt =====
-- src/mongo_recycler/process/decision.py
pub mod Choice
pub mod Progress
use aws_autorecycle.Base.{
  String, ◌<>◌, Bool, true, false, not, ◌&&◌, ◌||◌, List, [], ◌∷◌, map, Option, none, some, ◌==◌,
  select, join, if◌then◌else◌,
}
use aws_autorecycle.Mongo.Models.{
  Instance, Decision, done, recycle_secondary, step_down_and_recycle_primary, action,
  find_instances,
}

-- The functions of the package `colors` that the code uses.
pub data Style : Type 0 where
  bold faint green red yellow : Style

-- `state in candidate_states`
abbrev pub is_candidate_state : String → Bool
is_candidate_state state = state == "PRIMARY" || state == "SECONDARY"

unfoldable pub choose_color : Instance → String → Style
choose_color i target_ami =
    if not (is_candidate_state i.mongo_state)
    then faint
    else if i.image_id == target_ami
    then green
    else red

unfoldable pub instance_to_string : Instance → String
instance_to_string i =
    i.instance_id
    <> (" | " <> (i.mongo_state <> (" | " <> (i.ip_address <> (" | " <> i.image_id)))))

-- `paint` stands for the package: it styles a text for a terminal.
module _ (paint : Style → String → String) where
  unfoldable pub report_cluster_status : List Instance → String → String
  report_cluster_status instances target_ami =
      join "\n" (map (λ i. paint (choose_color i target_ami) (instance_to_string i)) instances)

  outcome_string : Decision → Instance → String
  outcome_string decision i = action decision <> (" : " <> i.instance_id)

  unfoldable pub report_outcome : Decision → String
  unfolding outcome_string
  report_outcome (step_down_and_recycle_primary i) =
      paint bold (paint yellow (outcome_string (step_down_and_recycle_primary i) i))
  report_outcome (recycle_secondary i) = paint yellow (outcome_string (recycle_secondary i) i)
  report_outcome done = paint bold (paint green (action done))

-- The test of the comprehension in `find_candidates`.
abbrev pub is_candidate : String → Instance → Bool
is_candidate target_ami i = not (i.image_id == target_ami) && is_candidate_state i.mongo_state

unfoldable pub find_candidates : List Instance → String → List Instance
find_candidates instances target_ami = select (is_candidate target_ami) instances

choose : List Instance → List Instance → Decision
choose (secondary ∷ _) primaries = recycle_secondary secondary
choose [] (primary ∷ _) = step_down_and_recycle_primary primary
choose [] [] = done

unfoldable pub decide_on_action : List Instance → String → Decision
unfolding choose
decide_on_action replica_set_status target_ami =
    let candidates = find_candidates replica_set_status target_ami in
    choose (find_instances candidates "SECONDARY") (find_instances candidates "PRIMARY")
