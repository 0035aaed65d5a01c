-- ===== src/Mongo/Tests.antt =====
-- A small site to run the code of src/mongo_recycler on, and the theorems at concrete inputs.
mod Connecting
mod Strategy
mod Connectors
use aws_autorecycle.Base.{
  ℕ, String, ◌≡◌, ◌≢◌, ◌↔◌, refl, Bool, true, false, none, some, List, [], ◌∷◌, arith, All,
  if◌then◌else◌,
}
use aws_autorecycle.Exceptions.{ok, ◌>>=◌}
use aws_autorecycle.Effect.Follows.{accept}
use aws_autorecycle.Json.{Json, str, obj, Fields, end, field, lookup}
use aws_autorecycle.Mongo.Models.{Instance, done, recycle_secondary, step_down_and_recycle_primary}
use aws_autorecycle.Mongo.Services.{Services, ReplicaSetStatus, Ec2Instance}
use aws_autorecycle.Mongo.Poll.{poll, poll_from, fails_with, pause, failure}
use aws_autorecycle.Mongo.Poll.Attempts.{IsAttempt, poll-IsAttempt}
use aws_autorecycle.Mongo.Aws.{
  get_launch_template_image_ids, latest_versions, latest_version, image_ids, get_mongo_db_instances,
  describe_mongodb_instances, recycle_instance, terminate_and_wait, one_resource, is_terminated,
  get_instance_state, instance_state, assert_terminated, describe_ip_address_from_instance,
}
use aws_autorecycle.Mongo.Database.{
  set_chaining, apply_chaining, same, step_down, forgive_reconnect, get_node_details, node_details,
  state_string_from_status, replica_set_status,
}
use aws_autorecycle.Mongo.Decision.{decide_on_action, find_candidates}
use aws_autorecycle.Mongo.Decision.Choice.{Fits, decide_on_action-Fits}
use aws_autorecycle.Mongo.Decision.Progress.{Rounds, stop, round, here, outdated_count, Rounds-end}
use aws_autorecycle.Mongo.Models.{find_instances}
use aws_autorecycle.Mongo.PreStepChecks.{
  set_of, assert_amis_match_and_get_ami, assert_all_nodes_in_same_replica_set,
  get_ami_and_check_all_amis_match, fetch_each, fetch_replica_set_status,
}
use aws_autorecycle.Mongo.PreStepChecks.Agreement.{
  AllAre, assert_amis_match_and_get_ami_iff, assert_all_nodes_in_same_replica_set_iff,
}
use aws_autorecycle.Mongo.Health.{
  connection_string, assert_healthy, wait_until_cluster_healthy, assert_replica_set_healthy,
  assert_all_nodes_healthy, assert_one_primary_node,
}
use aws_autorecycle.Mongo.Health.Conditions.{IsHealthy, assert_replica_set_healthy_iff}
use aws_autorecycle.Mongo.Execute.{execute_action}
use aws_autorecycle.Mongo.Step.{step, lambda_handler, finish}
use aws_autorecycle.Mongo.Step.Order.{step_order}
use aws_autorecycle.Mongo.Step.Recorded.{
  Turn, first_turn, turn_allowed, step_from, Handled, handler_order,
}
use aws_autorecycle.Mongo.Step.Counting.{invocations, Reports, invocations-Reports}
use aws_autorecycle.Mongo.Protocol.{Phase, unknown, allowed, Completes, Returning}
use aws_autorecycle.Mongo.Protocol.Recycling.{ListsRequested}

-- A set of one node, which is old until it is terminated.
record Site : Type 0 where
  old : Bool
  chaining : Bool
  version : ℕ

abbrev node : Site → Ec2Instance
node w = record {
  instance_id = "i-1";
  image_id = if w.old then "ami-old" else "ami-new";
  state_name = "running";
  network_interfaces =
      record { private_ip_address = "10.0.0.9"; delete_on_termination = true }
      ∷ record { private_ip_address = "10.0.0.1"; delete_on_termination = false }
      ∷ [];
}

abbrev status : ReplicaSetStatus
status = record {
  ok_code = 1;
  my_state = some 1;
  set_name = "rs0";
  members = record { name = "a"; state_str = "PRIMARY"; sync_source_host = none } ∷ [];
}

abbrev site : Services
site = record {
  World = Site;
  describe_launch_templates = λ pattern w.
      (ok (record { launch_template_id = "lt-1"; latest_version_number = 12 } ∷ []), w);
  describe_launch_template_versions =
      λ ident version w. (ok (record { image_id = some "ami-new" } ∷ []), w);
  describe_instances = λ names w. (ok (record { instances = node w ∷ [] } ∷ []), w);
  describe_instance = λ ident w.
      (ok (record { instances = record (node w) { state_name = "terminated" } ∷ [] } ∷ []), w);
  list_instances = λ ident w. (ok (ident ∷ []), w);
  terminate = λ ident w. (ok tt, record w { old = false });
  put = λ name expiry w. (ok tt, w);
  time = λ w. (ok 1000, w);
  sleep = λ seconds w. w;
  connect = λ host w. (ok tt, w);
  get_status = λ host w. (ok status, w);
  get_config =
      λ host w. (ok (record { chaining_allowed = w.chaining; version = w.version; rest = "" }), w);
  reconfigure = λ host config w.
      (ok tt, record w { chaining = config.chaining_allowed; version = config.version });
  replace_primary = λ host seconds w. (ok tt, w);
}

abbrev before : Site
before = record { old = true; chaining = true; version = 3 }

abbrev chosen : Instance
chosen = record {
  instance_id = "i-1";
  image_id = "ami-old";
  ip_address = "10.0.0.1";
  mongo_state = "PRIMARY";
  replica_set_name = "rs0";
}

step_runs : (step site "db_mongo_a" before).result ≡ ok (step_down_and_recycle_primary chosen)
unfolding step get_ami_and_check_all_amis_match get_launch_template_image_ids latest_versions
    latest_version image_ids assert_amis_match_and_get_ami set_of fetch_replica_set_status
    fetch_each get_mongo_db_instances describe_mongodb_instances describe_ip_address_from_instance
    get_node_details node_details state_string_from_status assert_all_nodes_in_same_replica_set
    decide_on_action find_candidates find_instances execute_action connection_string set_chaining
    apply_chaining same step_down forgive_reconnect wait_until_cluster_healthy assert_healthy
    replica_set_status assert_replica_set_healthy assert_all_nodes_healthy assert_one_primary_node
    recycle_instance terminate_and_wait one_resource is_terminated get_instance_state instance_state
    assert_terminated poll poll_from fails_with pause failure
step_runs = refl

site-ListsRequested : ListsRequested site
site-ListsRequested ident w = (refl, tt)

step_order_example :
    (q : Phase) × (accept allowed unknown (step site "db_mongo_a" before).calls ≡ some q)
    × Returning Completes (step site "db_mongo_a" before).result q
step_order_example = step_order site site-ListsRequested "db_mongo_a" before

abbrev show : Json → String
show v = "…"

abbrev event : Fields
event = field "component" (str "db_mongo_a") (field "message_content" (obj end) end)

component_named : lookup "component" event ≡ some (str "db_mongo_a")
unfolding lookup
component_named = refl

handler_order_example :
    (q : Turn) × (accept
        (turn_allowed "db_mongo_a" (ok 1000))
        (first_turn event)
        (lambda_handler site show event before).calls
      ≡ some q)
    × Handled site show "db_mongo_a" event
        (step_from site "db_mongo_a" (first_turn event) before)
        (lambda_handler site show event before).result
        q
handler_order_example =
    handler_order site site-ListsRequested show "db_mongo_a" event before component_named

abbrev secondary : Instance
secondary = record chosen { mongo_state = "SECONDARY"; instance_id = "i-2" }

invocations-Reports_example :
    (last : Fields) × ((invocations show (recycle_secondary secondary ∷ []) event
        >>= finish show done)
      ≡ ok last)
    × Reports show 1 last
invocations-Reports_example =
    invocations-Reports show (recycle_secondary secondary ∷ []) end event (λ e. cc, tt)
      (unfold lookup in refl) (unfold lookup in refl)

decide_on_action-Fits_example :
    Fits "ami-new" (chosen ∷ secondary ∷ []) (recycle_secondary secondary)
unfolding decide_on_action find_candidates find_instances
decide_on_action-Fits_example = decide_on_action-Fits (chosen ∷ secondary ∷ []) "ami-new"

abbrev renewed : Instance
renewed = record secondary { image_id = "ami-new"; mongo_state = "STARTUP2" }

one_round : Rounds "ami-new" (secondary ∷ []) 1 (renewed ∷ [])
unfolding decide_on_action find_candidates find_instances
one_round = round secondary refl (here secondary renewed refl refl refl) stop

Rounds-end_example :
    (◌≡◌ {A = ℕ} 1 (outdated_count "ami-new" (secondary ∷ [])))
    × All (λ i. i.image_id ≡ "ami-new") (renewed ∷ [])
    × (decide_on_action (renewed ∷ []) "ami-new" ≡ done)
Rounds-end_example = Rounds-end one_round (omega arith)

poll-IsAttempt_example :
    (k : ℕ) × IsAttempt site
      (assert_healthy site "db_mongo_a")
      (some 10)
      2
      before
      (poll site (assert_healthy site "db_mongo_a") 3 (some 10) before)
      k
poll-IsAttempt_example = poll-IsAttempt site (assert_healthy site "db_mongo_a") (some 10) 3 before

assert_replica_set_healthy_iff_example :
    (assert_replica_set_healthy status ≡ ok tt) ↔ IsHealthy status.members
assert_replica_set_healthy_iff_example = assert_replica_set_healthy_iff status

abbrev two_amis : List String
two_amis = "ami-1" ∷ "ami-1" ∷ []

assert_amis_match_example :
    (assert_amis_match_and_get_ami "db" two_amis ≡ ok "ami-1")
    ↔ ((two_amis ≢ []) × AllAre "ami-1" two_amis)
assert_amis_match_example = assert_amis_match_and_get_ami_iff "db" two_amis "ami-1"

same_replica_set_example :
    (assert_all_nodes_in_same_replica_set (chosen ∷ secondary ∷ []) ≡ ok tt) ↔ (
      ((chosen ∷ secondary ∷ []) ≢ [])
      × ((name : String) × All (λ i. i.replica_set_name ≡ name) (chosen ∷ secondary ∷ [])))
same_replica_set_example = assert_all_nodes_in_same_replica_set_iff (chosen ∷ secondary ∷ [])
