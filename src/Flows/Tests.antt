-- ===== src/Flows/Tests.antt =====
-- The lambdas together, at concrete inputs.
mod Monitoring
use aws_autorecycle.Base.{
  All, String, none, ◌≡◌, refl, inl, inr, some, true, [], ◌∷◌, subn_az, strip_prefix, arith, eq_iff,
}
use aws_autorecycle.Exceptions.{Exception, Result, ok}
use aws_autorecycle.Json.{str, obj, Fields, end, field, lookup}
use aws_autorecycle.Invoke.Component.{get_component_name}
use aws_autorecycle.Invoke.Component.RoundTrip.{Names, updated}
use aws_autorecycle.ScaleAsg.Autoscaling.{matches}
use aws_autorecycle.Consul.Services.{Services}
use aws_autorecycle.ScaleAsg.Services as Scaling
use aws_autorecycle.ScaleAsg.Event.{Event, many, unset, set}
use aws_autorecycle.Effect.Follows.{Follows}
use aws_autorecycle.Flows.Consul.{
  Tasks, started, completed, notified, checked, listed, sent_leave, terminated, paused, retry,
  recycle_node, for_each_instance, main_flow, recycle_consul_agents,
}
use aws_autorecycle.Flows.Consul.Order.{recycle_order}
use aws_autorecycle.Flows.Consul.Protocol.{starting, finished, stopped, next_state, EndsIn}
use aws_autorecycle.Flows.Consul.Lambdas.{Site, Integrations, lambdas}
use aws_autorecycle.Flows.Consul.Lambdas.Assured.{OnAnswers, Assures, Tells, recycle-Assures}
use aws_autorecycle.Flows.Group.{matches-get_component_name}

abbrev update : Fields
update =
    field "detail"
      (obj (
        field "requestParameters"
          (obj
            (field "autoScalingGroupName" (str "db-asg-b2") (field "launchTemplate" (obj end) end)))
          end))
      end

abbrev names_db : Names update "db-asg-b2"
unfolding lookup
names_db = updated refl refl refl refl refl

matches-get_component_name_example :
    (get_component_name update ≡ ok (some "db")) × (matches "db" "db-asg-b2" ≡ true)
unfolding strip_prefix subn_az
matches-get_component_name_example =
    matches-get_component_name update "db" "b2" names_db (ground (arith, eq_iff "db" ""))
      (refl, (refl, (refl, (refl, (refl, (refl, tt)))))) refl
      (inl (ground arith, ground arith), (inr (ground arith, ground arith), tt))
      (ground (arith, eq_iff "b2" ""))

abbrev repr : Exception → String
repr e = "Exception()"

-- AWS has nothing: each turn fails, with a message for it.
abbrev empty_site : Scaling.Services
empty_site = record {
  World = Unit;
  describe_groups = λ w. (ok [], w);
  describe_activities = λ name count w. (ok [], w);
  execute_policy = λ name policy w. (ok tt, w);
  now = λ w. (0, w);
}

abbrev first_event : Event
first_event = record {
  channels = unset;
  component = "web";
  counter = unset;
  emoji = unset;
  exception = unset;
  message_content = unset;
  monitoring_slack_channel = unset;
  pager_duty_description = unset;
  pager_duty_event_type = unset;
  notify_pager_duty = unset;
  recycle_success = unset;
  status = unset;
  success_channel = "event-recycling";
  team = unset;
  text = unset;
  username = unset;
}

-- The lambda for notices makes a list of the channel.
abbrev notify_slack : Event → Result Event
notify_slack event = ok (record event { channels = set (many ("event-recycling" ∷ [])) })

abbrev tasks : Tasks
tasks = record {
  World = Unit;
  notify = λ notice w. (ok tt, w);
  check_health = λ event w. (ok "Cluster healthy", w);
  get_nodes = λ event w. (
    ok (
        record { ip = "10.0.0.2"; instance_id = "i-2" }
        ∷ record { ip = "10.0.0.1"; instance_id = "i-1" }
        ∷ []),
    w,
  );
  leave = λ ident w. (ok tt, w);
  terminate = λ event w. (ok (record { status_code = 200; body = "" }), w);
  pause = λ seconds w. w;
}

recycle_order_example :
    Follows next_state starting (EndsIn finished stopped) (recycle_consul_agents tasks "blue")
recycle_order_example = recycle_order tasks "blue"

recycle_tests :
    (recycle_consul_agents tasks "blue" tt).calls
    ≡ notified started (ok tt)
      ∷ checked none (ok "Cluster healthy")
      ∷ listed (tasks.get_nodes end tt).0
      ∷ sent_leave "i-2" (ok tt)
      ∷ paused 120
      ∷ checked (some 4) (ok "Cluster healthy")
      ∷ terminated "i-2" (ok (record { status_code = 200; body = "" }))
      ∷ paused 300
      ∷ checked none (ok "Cluster healthy")
      ∷ sent_leave "i-1" (ok tt)
      ∷ paused 120
      ∷ checked (some 4) (ok "Cluster healthy")
      ∷ terminated "i-1" (ok (record { status_code = 200; body = "" }))
      ∷ paused 300
      ∷ checked none (ok "Cluster healthy")
      ∷ notified completed (ok tt)
      ∷ []
unfolding recycle_consul_agents main_flow for_each_instance recycle_node retry
recycle_tests = refl

abbrev cluster_site : Services
cluster_site = record {
  World = Unit;
  get_parameter = λ name w. (ok "certificate", w);
  write_file = λ text w. (ok "/tmp/ca.pem", w);
  load_verify_locations = λ path w. (ok tt, w);
  leader = λ host cert w. (ok "\"10.0.0.1:8300\"\n", w);
  members = λ host cert w. (ok (record { addr = "10.0.0.1" } ∷ []), w);
  peers = λ host cert w. (ok ("10.0.0.1:8300" ∷ []), w);
  describe_instances = λ ips w. (ok [], w);
  terminate_instance = λ ident w. (ok tt, w);
}

abbrev integrations : Integrations Unit
integrations = record {
  notify = λ notice w. (ok tt, w);
  leave = λ ident w. (ok tt, w);
  pause = λ seconds w. w;
}

abbrev cold : Site Unit
cold = record { outside = tt; nodes_cert = none; health_cert = none }

recycle-Assures_example :
    All
      (OnAnswers
        (Assures cluster_site (λ v. "{}") repr none none integrations "blue")
        (Tells cluster_site (λ v. "{}") repr none none integrations "blue"))
      (recycle_consul_agents
        (lambdas cluster_site (λ v. "{}") repr none none integrations)
        "blue"
        cold).calls
recycle-Assures_example =
    recycle-Assures cluster_site (λ v. "{}") repr none none integrations "blue" cold
