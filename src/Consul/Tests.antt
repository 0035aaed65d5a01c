-- ===== src/Consul/Tests.antt =====
-- The Consul functions at concrete inputs: a cluster of three, whose leader is the first member.
mod Nodes
mod Trust
use mathlib.Core.Bool.{false≢true}
use aws_autorecycle.Base.{
  eq_iff, String, ◌≡◌, ◌≢◌, ◌↔◌, refl, none, some, List, [], ◌∷◌, ◌++◌, pos, length, ◌<>◌, show_ℕ,
}
use aws_autorecycle.Exceptions.{ok}
use aws_autorecycle.Json.{Json, num, end, lookup, Fields, field, str}
use aws_autorecycle.Base.Dict
use aws_autorecycle.Base.Dict.{Dict}
use aws_autorecycle.Consul.Services.{Services, Process, Member, Ec2Instance, terminated}
use aws_autorecycle.Consul.Certificate.{get_consul_host, cert_path, retrieve_cert, get_ssl_context}
use aws_autorecycle.Consul.Certificate.Caching.{cert_path-cached}
use aws_autorecycle.Consul.Terminate.Outcome.{Answers, lambda_handler-terminated}
use aws_autorecycle.Consul.Terminate.{terminate, missing, lambda_handler}
use aws_autorecycle.Consul.Leader.{leader_text, before_colon, strip}
use aws_autorecycle.Consul.Nodes.{
  sorted_members, addresses, instance_list, map_interfaces, map_instances, get_instance_map,
  list_nodes,
}
use aws_autorecycle.Consul.Health
use aws_autorecycle.Consul.Health.{
  expected_peers, is_count, assert_leader, assert_peers, check_cluster, healthy_text,
}
use aws_autorecycle.Consul.Health.Passed.{Healthy, lambda_handler-Healthy}
use aws_autorecycle.Consul.Health.Conditions.{check_cluster_iff}

abbrev cluster : List Member
cluster =
    record { addr = "10.0.0.1" } ∷ record { addr = "10.0.0.2" } ∷ record { addr = "10.0.0.3" } ∷ []

abbrev machine : String → String → Ec2Instance
machine ident ip = record { instance_id = ident; addresses = none ∷ some ip ∷ [] }

abbrev peer_list : List String
peer_list = "10.0.0.1:8300" ∷ "10.0.0.2:8300" ∷ "10.0.0.3:8300" ∷ []

abbrev site : Services
site = record {
  World = Unit;
  get_parameter = λ name w. (ok "certificate", w);
  write_file = λ text w. (ok "/tmp/ca.pem", w);
  load_verify_locations = λ path w. (ok tt, w);
  leader = λ host context w. (ok "\"10.0.0.1:8300\"\n", w);
  members = λ host context w. (ok cluster, w);
  peers = λ host context w. (ok peer_list, w);
  describe_instances = λ ips w.
      (ok (machine "i-3" "10.0.0.3" ∷ machine "i-1" "10.0.0.1" ∷ machine "i-9" "10.0.0.9" ∷ []), w);
  terminate_instance = λ ident w. (ok tt, w);
}

abbrev started : Process Unit
started = record { world = tt; cert_path = none }

abbrev show : Json → String
show v = "{}"

leader_tests :
    (leader_text "\"10.0.0.1:8300\"\n" ≡ "10.0.0.1:8300")
    × (before_colon (leader_text "\"10.0.0.1:8300\"\n") ≡ "10.0.0.1")
    × (leader_text "\"\"" ≡ "")
unfolding leader_text before_colon strip
leader_tests = (refl, refl, refl)

-- The leader is listed last, and a member without an instance is left out.
list_nodes_test :
    (list_nodes site "https://consul" none started).result
    ≡ ok (
        record { ip = "10.0.0.3"; instance_id = "i-3" }
        ∷ record { ip = "10.0.0.1"; instance_id = "i-1" }
        ∷ [])
unfolding list_nodes get_instance_map instance_list map_instances map_interfaces sorted_members
    leader_text before_colon strip Dict.lookup Dict.insert
list_nodes_test = refl

terminate_test : (lambda_handler site show (λ e. "") end started).result ≡ ok missing
unfolding lambda_handler lookup
terminate_test = refl

check_cluster_iff_example :
    ((check_cluster site show "https://consul" none (num (pos 3)) started).result
      ≡ ok (healthy_text show (leader_text "\"10.0.0.1:8300\"\n") peer_list))
    ↔ ((leader_text "\"10.0.0.1:8300\"\n" ≢ "") × (length peer_list ≡ 3))
check_cluster_iff_example =
    check_cluster_iff site show "https://consul" none started "\"10.0.0.1:8300\"\n" peer_list 3
      (refl, refl)

fetched : (cert_path site (some "ca") started).result ≡ ok (some "/tmp/ca.pem")
unfolding cert_path retrieve_cert
fetched = refl

cert_path-cached_example :
    cert_path site (some "ca") (cert_path site (some "ca") started).world ≡ record {
      result = ok (some "/tmp/ca.pem");
      calls = [];
      world = (cert_path site (some "ca") started).world;
    }
cert_path-cached_example = cert_path-cached site "ca" "/tmp/ca.pem" started fetched

terminated_test :
    (lambda_handler site show (λ e. "") (field "instanceId" (str "i-3") end) started).calls
    ≡ terminated "i-3" ∷ []
unfolding lambda_handler terminate lookup
terminated_test = refl

abbrev i3_event : Fields
i3_event = field "instanceId" (str "i-3") end

i3_named : lookup "instanceId" i3_event ≡ some (str "i-3")
unfolding lookup
i3_named = refl

lambda_handler-terminated_example :
    ((lambda_handler site show (λ e. "") i3_event started).calls ≡ terminated "i-3" ∷ [])
    × Answers site show
        (λ e. "")
        "i-3"
        (ok tt)
        (lambda_handler site show (λ e. "") i3_event started).result
lambda_handler-terminated_example =
    lambda_handler-terminated site show (λ e. "") i3_event "i-3" started
      (λ h. absurd (false≢true ((eq_iff "i-3" "").1 h))) i3_named

abbrev three_event : Fields
three_event = field "expectedPeers" (num (pos 3)) end

three_expected : expected_peers three_event ≡ num (pos 3)
unfolding expected_peers lookup
three_expected = refl

three_healthy :
    (Health.lambda_handler site show (λ e. "") none none three_event started).result
    ≡ ok "Cluster healthy with leader 10.0.0.1:8300 and 3 peers"
unfolding Health.lambda_handler get_ssl_context cert_path check_cluster expected_peers is_count
    assert_leader assert_peers healthy_text leader_text strip lookup show_ℕ
three_healthy = refl

lambda_handler-Healthy_example :
    Healthy site show
      (get_consul_host show none three_event)
      3
      "Cluster healthy with leader 10.0.0.1:8300 and 3 peers"
lambda_handler-Healthy_example =
    lambda_handler-Healthy site show (λ e. "") none none three_event 3
      "Cluster healthy with leader 10.0.0.1:8300 and 3 peers" started three_expected three_healthy
