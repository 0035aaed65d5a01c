-- ===== src/Consul/Tests/Trust.antt =====
-- A process that has not fetched its certificate checks the cluster of three and lists it.
use aws_autorecycle.Base.{String, ◌≡◌, ◌≢◌, refl, arith, eq_iff, some, [], ◌∷◌}
use aws_autorecycle.Exceptions.{ok}
use aws_autorecycle.Json.{end, lookup}
use aws_autorecycle.Consul.Services.{got_parameter, wrote_file, loaded, read_leader, read_peers}
use aws_autorecycle.Consul.Certificate.{get_consul_host, cert_path, retrieve_cert, get_ssl_context}
use aws_autorecycle.Consul.Leader.{leader_text, strip}
use aws_autorecycle.Consul.Health
use aws_autorecycle.Consul.Health.{
  check_cluster, assert_leader, assert_peers, is_count, expected_peers,
}
use aws_autorecycle.Consul.Nodes
use aws_autorecycle.Consul.Trust.{NamesFiles}
use aws_autorecycle.Consul.Trust.Handlers.{Trusts, lambda_handler-Trusts}
use aws_autorecycle.Consul.Tests.{site, started, show}

health_calls_test :
    (Health.lambda_handler site show (λ e. "") (some "live") (some "ca") end started).calls
    ≡ got_parameter "ca" (ok "certificate")
      ∷ wrote_file "certificate" (ok "/tmp/ca.pem")
      ∷ loaded "/tmp/ca.pem" (ok tt)
      ∷ read_leader "https://consul-live.live.mdtp:8501" (some "/tmp/ca.pem")
      ∷ read_peers "https://consul-live.live.mdtp:8501" (some "/tmp/ca.pem")
      ∷ []
unfolding Health.lambda_handler get_consul_host get_ssl_context cert_path retrieve_cert
    check_cluster assert_leader leader_text strip lookup assert_peers is_count expected_peers
health_calls_test = refl

site-NamesFiles : NamesFiles site
site-NamesFiles text w = λ e. ground (arith, eq_iff "/tmp/ca.pem" "", e)

no_file : started.cert_path ≢ some ""
no_file = λ e. ground (arith, e)

ca_named : ◌≢◌ {A = String} "ca" ""
ca_named = λ e. ground (arith, eq_iff "ca" "", e)

lambda_handler-Trusts_example :
    Trusts site show
      (λ e. "")
      (some "live")
      "ca"
      end
      started
      (Health.lambda_handler site show (λ e. "") (some "live") (some "ca") end started).calls
    × Trusts site show
        (λ e. "")
        (some "live")
        "ca"
        end
        started
        (Nodes.lambda_handler site show (λ e. "") (some "live") (some "ca") end started).calls
lambda_handler-Trusts_example =
    lambda_handler-Trusts site show (λ e. "") (some "live") "ca" end site-NamesFiles ca_named
      started no_file
