-- ===== src/Mongo/Tests/Strategy.antt =====
-- An execution for the strategy "mongo" on the set of one node: one invocation recycles it, and the next
-- one finds nothing left to do.
use aws_autorecycle.Base.{◌≡◌, refl, sym, ◌∙◌, ap, Option, some, none, arith, eq_iff}
use aws_autorecycle.Exceptions.{Exception, Result, ok, err}
use aws_autorecycle.Json.{Json, str, arr, nil, cons, Fields, end, field, lookup, insert}
use aws_autorecycle.Json.Laws.{lookup-insert}
use aws_autorecycle.Mongo.Aws.{
  get_launch_template_image_ids, latest_versions, latest_version, image_ids, get_mongo_db_instances,
  describe_mongodb_instances, recycle_instance, terminate_and_wait, one_resource, is_terminated,
  get_instance_state, instance_state, assert_terminated, describe_ip_address_from_instance,
}
use aws_autorecycle.Mongo.Poll.{poll, poll_from, fails_with, pause, failure}
use aws_autorecycle.Mongo.Database.{
  set_chaining, apply_chaining, same, step_down, forgive_reconnect, get_node_details, node_details,
  state_string_from_status, replica_set_status,
}
use aws_autorecycle.Mongo.Decision.{decide_on_action, find_candidates}
use aws_autorecycle.Mongo.Models.{find_instances}
use aws_autorecycle.Mongo.PreStepChecks.{
  set_of, assert_amis_match_and_get_ami, assert_all_nodes_in_same_replica_set,
  get_ami_and_check_all_amis_match, fetch_each, fetch_replica_set_status,
}
use aws_autorecycle.Mongo.Health.{
  connection_string, assert_healthy, wait_until_cluster_healthy, assert_replica_set_healthy,
  assert_all_nodes_healthy, assert_one_primary_node,
}
use aws_autorecycle.Mongo.Execute.{execute_action}
use aws_autorecycle.Mongo.Step.{
  step, lambda_handler, finish, increment_counter, with_counter, is_first_run, decision_json,
  record_recycle_starting,
}
use aws_autorecycle.Flows.InOut.Choices.{Ending, success}
use aws_autorecycle.Flows.Mongo.{recycle_cluster, conclude, mongo_strategy}
use aws_autorecycle.Flows.Mongo.Choices.{after_recycle, mongo_recycle, status}
use aws_autorecycle.Flows.Mongo.Outcome.{ConvertsChannels, first_event, Ends, mongo_strategy-Ends}
use aws_autorecycle.Mongo.Tests.{site, before, show}

abbrev asked : Fields
asked = field "component" (str "db_mongo_a") end

-- The lambda for notices makes a list of the channels of a failure.
abbrev notify_slack : Fields → Result Fields
notify_slack event = ok (insert "channels" (arr (cons (str "events") nil)) event)

notify_slack-ConvertsChannels : ConvertsChannels notify_slack
notify_slack-ConvertsChannels event answer h key other =
    ap (λ r. elim r [ ok o ↦ lookup key o | err e ↦ none ]) (sym h)
    ∙ ground (
      arith,
      lookup-insert key "channels" (arr (cons (str "events") nil)) event,
      eq_iff key "channels",
      eq_iff "channels" key,
    )

abbrev error_info : Exception → Json
error_info e = str "Error"

component_given : lookup "component" asked ≡ some (str "db_mongo_a")
unfolding lookup
component_given = refl

abbrev ending : Result (Option Ending × Fields) → Option Ending
ending (ok (e, event)) = e
ending (err e) = none

recycles :
    ending
      (mongo_strategy site show
        (λ w. w)
        notify_slack
        error_info
        "live"
        "events"
        "wiki"
        2
        asked
        before).result
    ≡ some success
unfolding mongo_strategy recycle_cluster conclude after_recycle mongo_recycle status lambda_handler
    finish increment_counter with_counter is_first_run decision_json record_recycle_starting lookup
    insert step get_ami_and_check_all_amis_match get_launch_template_image_ids latest_versions
    latest_version image_ids assert_amis_match_and_get_ami set_of fetch_replica_set_status
    fetch_each get_mongo_db_instances describe_mongodb_instances describe_ip_address_from_instance
    get_node_details node_details state_string_from_status assert_all_nodes_in_same_replica_set
    decide_on_action find_candidates find_instances execute_action connection_string set_chaining
    apply_chaining same step_down forgive_reconnect wait_until_cluster_healthy assert_healthy
    replica_set_status assert_replica_set_healthy assert_all_nodes_healthy assert_one_primary_node
    recycle_instance terminate_and_wait one_resource is_terminated get_instance_state instance_state
    assert_terminated poll poll_from fails_with pause failure
recycles = refl

mongo_strategy-Ends_example :
    Ends site show
      (λ w. w)
      (first_event notify_slack error_info "live" "events" "db_mongo_a")
      before
      "db_mongo_a"
      2
      (mongo_strategy site show
        (λ w. w)
        notify_slack
        error_info
        "live"
        "events"
        "wiki"
        2
        asked
        before).result
mongo_strategy-Ends_example =
    mongo_strategy-Ends site show (λ w. w) notify_slack error_info notify_slack-ConvertsChannels
      "live" "events" "wiki" "db_mongo_a" 2 asked before component_given
