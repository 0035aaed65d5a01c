-- ===== src/Consul/Health.antt =====
-- src/check_consul_health/main.py: a cluster is healthy with a leader and as many peers as expected.
pub mod Certificate
pub mod Conditions
pub mod Passed
use aws_autorecycle.Base.{
  ℕ, ◌+◌, ℤ, pos, eqb_ℕ, show_ℕ, String, ◌<>◌, Bool, true, false, not, Option, none, some, List,
  length, ◌==◌, if◌then◌else◌,
}
use aws_autorecycle.Exceptions
use aws_autorecycle.Exceptions.{Exception, Result, ok, err, exception, NoneType}
use aws_autorecycle.Effect.{lift, pure, attempt, ◌>>=◌, ◌>>◌}
use aws_autorecycle.Json.{Json, num, Fields, lookup, format}
use aws_autorecycle.Consul.Services.{Services, SslContext, Run, leader, peers}
use aws_autorecycle.Consul.Health.Certificate.{get_consul_host, get_ssl_context}
use aws_autorecycle.Consul.Leader.{leader_text}

-- `event.get("expectedPeers", 5)`
unfoldable pub expected_peers : Fields → Json
expected_peers event = elim (lookup "expectedPeers" event) [ none ↦ num (pos 5) | some v ↦ v ]

-- `len(peers) == expected_peers`. Python takes `True` for 1.
unfoldable pub is_count : ℕ → Json → Bool
is_count n (num m) = eqb_ℕ m n
is_count n (Json.bool true) = eqb_ℕ (pos 1) n
is_count n (Json.bool false) = eqb_ℕ (pos 0) n
is_count n _ = false

unfoldable pub assert_leader : String → Result NoneType
assert_leader leader = if leader == "" then err (exception "No leader found") else ok tt

module _ (show : Json → String) where
  unfoldable pub assert_peers : List String → Json → Result NoneType
  unfolding format show_ℕ
  assert_peers peers expected =
      if is_count (length peers) expected
      then ok tt
      else err
          (exception (show_ℕ (length peers) <> (" peers found, expected " <> format show expected)))

  -- The body of the response.
  unfoldable pub healthy_text : String → List String → String
  unfolding show_ℕ
  healthy_text leader peers =
      "Cluster healthy with leader " <> (leader <> (" and " <> (show_ℕ (length peers) <> " peers")))

abbrev pub relabel {ℓ} : {A : Type ℓ} → (Exception → String) → Result A → Result A
relabel show_error (ok a) = ok a
relabel show_error (err e) = err (exception ("Cluster health check failed: " <> show_error e))

module _ (S : Services) (show : Json → String) where
  -- The body of the `try`: the text of the response, whose status is 200.
  unfoldable pub check_cluster : String → SslContext → Json → Run S String
  check_cluster host context expected = do
    body ← leader S host context
    lift (assert_leader (leader_text body))
    found ← peers S host context
    lift (assert_peers show found expected)
    pure (healthy_text show (leader_text body) found)

  unfoldable pub lambda_handler :
      (Exception → String) → Option String → Option String → Fields → Run S String
  lambda_handler show_error environment arn event = do
    context ← get_ssl_context S arn
    r ←
        attempt
          (check_cluster (get_consul_host show environment event) context (expected_peers event))
    lift (relabel show_error r)
