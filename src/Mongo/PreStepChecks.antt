-- ===== src/Mongo/PreStepChecks.antt =====
-- src/mongo_recycler/process/pre_step_checks.py and instances.py: what is read before a step.
pub mod Agreement
use aws_autorecycle.Base.{
  ℕ, zero, suc, String, ◌<>◌, Bool, true, false, ◌||◌, List, [], ◌∷◌, map, length, has, ◌==◌, eqb,
  not, if◌then◌else◌,
}
use aws_autorecycle.Exceptions.{
  Result, ok, err, NoneType, no_launch_templates_found, launch_template_ami_mismatch,
  mongo_replica_set_mismatch,
}
use aws_autorecycle.Effect.{lift, pure, ◌>>=◌}
use aws_autorecycle.Mongo.Models.{Instance}
use aws_autorecycle.Mongo.Services.{Services, Run}
use aws_autorecycle.Mongo.Aws.{MongoInstance, get_launch_template_image_ids, get_mongo_db_instances}
use aws_autorecycle.Mongo.Database.{get_node_details}

-- A set of texts, `{x for x in xs}`: each element once.
unfoldable pub set_of : List String → List String
set_of [] = []
set_of (x ∷ xs) = let rest = set_of xs in if has (λ y. y == x) rest then rest else x ∷ rest

-- The test `len(image_ids) != 1`, and `pop` on a set of one element.
pop_only : String → List String → Result String
pop_only component (x ∷ []) = ok x
pop_only component _ = err (
    launch_template_ami_mismatch ("AMI IDs do not match in " <> (component <> " launch templates")))

unfoldable pub assert_amis_match_and_get_ami : String → List String → Result String
unfolding pop_only
assert_amis_match_and_get_ami component [] =
    err (no_launch_templates_found ("No launch templates start with `" <> (component <> "`")))
assert_amis_match_and_get_ami component (x ∷ xs) = pop_only component (set_of (x ∷ xs))

unfoldable pub assert_all_nodes_in_same_replica_set : List Instance → Result NoneType
assert_all_nodes_in_same_replica_set instances =
    let result_set = set_of (map (λ (i : Instance). i.replica_set_name) instances) in
    if not (eqb (length result_set) 1) then err mongo_replica_set_mismatch else ok tt

module _ (S : Services) where
  unfoldable pub get_ami_and_check_all_amis_match : String → Run S String
  get_ami_and_check_all_amis_match component = do
    ids ← get_launch_template_image_ids S component
    lift (assert_amis_match_and_get_ami component ids)

  -- The loop of `fetch_replica_set_status`, run to its end by `list(…)`.
  unfoldable pub fetch_each : List (Result MongoInstance) → Run S (List Instance)
  fetch_each [] = pure []
  fetch_each (item ∷ items) = do
    i ← lift item
    node ← get_node_details S i.ip_address
    rest ← fetch_each items
    pure (
        record {
          instance_id = i.instance_id;
          image_id = i.image_id;
          ip_address = i.ip_address;
          mongo_state = node.node_state;
          replica_set_name = node.replica_set_name;
        }
        ∷ rest)

  unfoldable pub fetch_replica_set_status : String → Run S (List Instance)
  fetch_replica_set_status component = do
    items ← get_mongo_db_instances S component
    fetch_each items
