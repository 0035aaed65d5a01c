-- ===== src/Mongo/Health/Conditions.antt =====
-- When a replica set counts as healthy, without the code's tests.
use aws_autorecycle.Base.{
  String, ◌≡◌, ◌≢◌, ◌⊎◌, ◌↔◌, refl, Option, none, some, List, [], ◌∷◌, arith, ◌==◌, eq_iff, All,
  tally, length-select,
}
use aws_autorecycle.Exceptions.{ok, ◌>>◌}
use aws_autorecycle.Mongo.Services.{Member, ReplicaSetStatus}
use aws_autorecycle.Mongo.Health.{
  assert_syncs, assert_node_healthy, assert_all_nodes_healthy, assert_one_primary_node,
  assert_replica_set_healthy,
}

-- The member serves, and if it is a secondary that names a source to sync from, the name is not
-- empty.
pub record IsServing (m : Member) : Type 0 where
  pub state : (m.state_str ≡ "PRIMARY") ⊎ (m.state_str ≡ "SECONDARY") ⊎ (m.state_str ≡ "ARBITER")
  pub syncs : m.state_str ≡ "SECONDARY" → m.sync_source_host ≢ some ""

-- Every member is serving, and exactly one is the primary.
pub record IsHealthy (members : List Member) : Type 0 where
  pub serving : All IsServing members
  pub one_primary : tally (λ m. m.state_str == "PRIMARY") members ≡ 1

module _ (m : Member) where
  assert_syncs-ne : (host : Option String) → assert_syncs m host ≡ ok tt → host ≢ some ""
  unfolding assert_syncs
  assert_syncs-ne none h = ground arith
  assert_syncs-ne (some x) h = ground (arith, eq_iff x "")

  ne-assert_syncs : (host : Option String) → host ≢ some "" → assert_syncs m host ≡ ok tt
  unfolding assert_syncs
  ne-assert_syncs none h = refl
  ne-assert_syncs (some x) h = ground (arith, eq_iff x "")

  node-IsServing : assert_node_healthy m ≡ ok tt → IsServing m
  unfolding assert_node_healthy
  node-IsServing h = ground (
    arith,
    assert_syncs-ne m.sync_source_host,
    eq_iff m.state_str "PRIMARY",
    eq_iff m.state_str "SECONDARY",
    eq_iff m.state_str "ARBITER",
  )

  IsServing-node : IsServing m → assert_node_healthy m ≡ ok tt
  unfolding assert_node_healthy
  IsServing-node h = ground (
    arith,
    ne-assert_syncs m.sync_source_host,
    eq_iff m.state_str "PRIMARY",
    eq_iff m.state_str "SECONDARY",
    eq_iff m.state_str "ARBITER",
  )

members-IsServing :
    (members : List Member) → assert_all_nodes_healthy members ≡ ok tt → All IsServing members
unfolding assert_all_nodes_healthy
members-IsServing [] h = tt
members-IsServing (m ∷ members) h = ground (arith, node-IsServing m, members-IsServing members)

IsServing-members :
    (members : List Member) → All IsServing members → assert_all_nodes_healthy members ≡ ok tt
unfolding assert_all_nodes_healthy
IsServing-members [] h = refl
IsServing-members (m ∷ members) h =
    ground (arith, IsServing-node m h.0, IsServing-members members h.1)

one_primary_iff :
    (members : List Member)
    → (assert_one_primary_node members ≡ ok tt)
      ↔ (tally (λ m. m.state_str == "PRIMARY") members ≡ 1)
unfolding assert_one_primary_node
one_primary_iff members =
    ground (arith, length-select (λ (m : Member). m.state_str == "PRIMARY") members)

healthy-parts :
    (status : ReplicaSetStatus)
    → assert_replica_set_healthy status
      ≡ (assert_all_nodes_healthy status.members >> assert_one_primary_node status.members)
unfolding assert_replica_set_healthy
healthy-parts status = refl

IsHealthy-of_parts :
    (members : List Member)
    → (assert_all_nodes_healthy members >> assert_one_primary_node members) ≡ ok tt
    → IsHealthy members
IsHealthy-of_parts members h =
    ground (arith, members-IsServing members, (one_primary_iff members).0)

parts-of_IsHealthy :
    (members : List Member)
    → IsHealthy members
    → (assert_all_nodes_healthy members >> assert_one_primary_node members) ≡ ok tt
parts-of_IsHealthy members h =
    ground (arith, IsServing-members members h.serving, (one_primary_iff members).1 h.one_primary)

-- The check passes exactly when every member is a primary, a secondary whose sync source is not
-- the empty text, or an arbiter, and exactly one member is a primary.
pub assert_replica_set_healthy_iff :
    (status : ReplicaSetStatus)
    → (assert_replica_set_healthy status ≡ ok tt) ↔ IsHealthy status.members
assert_replica_set_healthy_iff status =
    rw healthy-parts (IsHealthy-of_parts status.members, parts-of_IsHealthy status.members)
