-- ===== src/Mongo/Health.antt =====
-- src/mongo_recycler/process/replica_set_health.py
pub mod Conditions
use aws_autorecycle.Base.{
  ℕ, String, ◌<>◌, Bool, true, false, not, ◌||◌, List, [], ◌∷◌, map, length, Option, none, some,
  ◌==◌, eqb, show_ℕ, join, select, if◌then◌else◌,
}
use aws_autorecycle.Exceptions.{
  Result, ok, err, NoneType, collect, node_not_healthy, primary_error, secondary_not_healthy,
}
use aws_autorecycle.Exceptions
use aws_autorecycle.Effect.{lift, ◌>>=◌}
use aws_autorecycle.Mongo.Services.{Services, Run, Member, ReplicaSetStatus}
use aws_autorecycle.Mongo.Poll.{poll}
use aws_autorecycle.Mongo.Aws.{MongoInstance, get_mongo_db_instances}
use aws_autorecycle.Mongo.Database.{replica_set_status}

-- `state in healthy_states`
abbrev pub is_healthy_state : String → Bool
is_healthy_state state = state == "PRIMARY" || (state == "SECONDARY" || state == "ARBITER")

unfoldable pub assert_one_primary_node : List Member → Result NoneType
assert_one_primary_node members =
    let count = length (select (λ m. m.state_str == "PRIMARY") members) in
    if not (eqb count 1)
    then err (primary_error ("primary error, " <> (show_ℕ count <> " primaries found")))
    else ok tt

-- `if "syncSourceHost" in member` and the test below it
assert_syncs : Member → Option String → Result NoneType
assert_syncs m none = ok tt
assert_syncs m (some host) =
    if host == ""
    then err (secondary_not_healthy (m.name <> " is secondary but has no syncSourceHost"))
    else ok tt

-- The body of the loop over the members.
assert_node_healthy : Member → Result NoneType
assert_node_healthy m =
    if not (is_healthy_state m.state_str)
    then err (node_not_healthy (m.name <> (" is in unhealthy state " <> m.state_str)))
    else if m.state_str == "SECONDARY"
    then assert_syncs m m.sync_source_host
    else ok tt

unfoldable pub assert_all_nodes_healthy : List Member → Result NoneType
unfolding assert_node_healthy assert_syncs
assert_all_nodes_healthy [] = ok tt
assert_all_nodes_healthy (m ∷ members) =
    Exceptions.◌>>◌ (assert_node_healthy m) (assert_all_nodes_healthy members)

unfoldable pub assert_replica_set_healthy : ReplicaSetStatus → Result NoneType
assert_replica_set_healthy status =
    Exceptions.◌>>◌ (assert_all_nodes_healthy status.members)
      (assert_one_primary_node status.members)

-- `",".join(i["IpAddress"] for i in instances)`, where `instances` is a generator
unfoldable pub connection_string : List (Result MongoInstance) → Result String
connection_string items =
    Exceptions.◌>>=◌ (collect items)
      (λ instances. ok (join "," (map (λ (i : MongoInstance). i.ip_address) instances)))

-- The methods of `ReplicaSetHealth`, whose `aws` is for the given component.
module _ (S : Services) where
  unfoldable pub assert_healthy : String → Run S NoneType
  assert_healthy component = do
    instances ← get_mongo_db_instances S component
    host ← lift (connection_string instances)
    status ← replica_set_status S host
    lift (assert_replica_set_healthy status)

  unfoldable pub wait_until_cluster_healthy : String → Run S NoneType
  wait_until_cluster_healthy component = poll S (assert_healthy component) 60 (some 10)
