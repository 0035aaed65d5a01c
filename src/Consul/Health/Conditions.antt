-- ===== src/Consul/Health/Conditions.antt =====
-- When the health check of a Consul cluster passes.
use aws_autorecycle.Base.{
  ℕ, pos, String, ◌≡◌, ◌≢◌, ◌↔◌, refl, inl, inr, List, length, arith, eq_iff,
}
use aws_autorecycle.Exceptions.{Result, ok, Result-cases, ◌>>◌}
use aws_autorecycle.Json.{Json, num}
use aws_autorecycle.Consul.Services.{Services, SslContext, Process}
use aws_autorecycle.Consul.Leader.{leader_text}
use aws_autorecycle.Consul.Health.{
  is_count, assert_leader, assert_peers, healthy_text, check_cluster,
}

module _ (S : Services) (show : Json → String) (host : String) (context : SslContext) where
  -- The answers of Consul in a state of the process: its leader, and then its peers.
  abbrev pub Answers : Process S.World → String → List String → Type 0
  Answers p body peers =
      ((S.leader host context p.world).0 ≡ ok body)
      × ((S.peers host context (S.leader host context p.world).1).0 ≡ ok peers)

  -- The checks on the answers, without the calls.
  unfoldable pub judged : String → List String → Json → Result String
  judged body peers expected = do
    assert_leader (leader_text body)
    assert_peers show peers expected
    ok (healthy_text show (leader_text body) peers)

  pub check_cluster-judged :
      (p : Process S.World) (body : String) (peers : List String) (expected : Json)
      → Answers p body peers
      → (check_cluster S show host context expected p).result ≡ judged body peers expected
  unfolding check_cluster judged
  check_cluster-judged p body peers expected h =
      elim (Result-cases (assert_leader (leader_text body))) [
        | inr (e, h1) ↦ rw (h.0, h1) refl
        | inl (_, h1) ↦ elim (Result-cases (assert_peers show peers expected)) [
          | inr (e, h2) ↦ rw (h.0, h1, h.1, h2) refl
          | inl (_, h2) ↦ rw (h.0, h1, h.1, h2) refl
        ]
      ]

  judged_iff :
      (body : String) (peers : List String) (n : ℕ)
      → (judged body peers (num (pos n)) ≡ ok (healthy_text show (leader_text body) peers))
        ↔ ((leader_text body ≢ "") × (length peers ≡ n))
  unfolding judged assert_leader assert_peers is_count
  judged_iff body peers n = ground (arith, eq_iff (leader_text body) "")

  -- If Consul answers, the check passes exactly if a leader is named and the number of peers is the
  -- expected one, and it then reports both.
  pub check_cluster_iff :
      (p : Process S.World) (body : String) (peers : List String) (n : ℕ)
      → Answers p body peers
      → ((check_cluster S show host context (num (pos n)) p).result
          ≡ ok (healthy_text show (leader_text body) peers))
        ↔ ((leader_text body ≢ "") × (length peers ≡ n))
  check_cluster_iff p body peers n h =
      rw (check_cluster-judged p body peers (num (pos n)) h) (judged_iff body peers n)
