-- ===== src/Consul/Health/Passed.antt =====
-- What a passed health check says of the cluster.
use aws_autorecycle.Base.{
  ℕ, pos, String, ◌≡◌, ◌≢◌, refl, sym, ◌∙◌, inl, inr, Option, List, length, arith, eq_iff,
}
use aws_autorecycle.Exceptions.{Exception, Result, ok, err, Result-cases}
use aws_autorecycle.Json.{Json, num, Fields}
use aws_autorecycle.Consul.Services.{Services, SslContext, Process}
use aws_autorecycle.Consul.Leader.{leader_text}
use aws_autorecycle.Consul.Certificate.{get_consul_host, get_ssl_context}
use aws_autorecycle.Consul.Health.{
  is_count, expected_peers, assert_leader, assert_peers, healthy_text, check_cluster, relabel,
  lambda_handler,
}
use aws_autorecycle.Consul.Health.Conditions.{Answers, judged, check_cluster-judged}

module _ (S : Services) (show : Json → String) where
  -- Consul named a leader and so many peers, which is what the text says.
  pub record Healthy (host : String) (n : ℕ) (text : String) : Type 0 where
    pub context : SslContext
    pub process : Process S.World
    pub body : String
    pub found : List String
    pub answered : Answers S show host context process body found
    pub led : leader_text body ≢ ""
    pub counted : length found ≡ n
    pub told : text ≡ healthy_text show (leader_text body) found

  module _ (host : String) (context : SslContext) (n : ℕ) (text : String)
      (p : Process S.World) where
    judged-ok :
        (body : String) (found : List String)
        → judged S show host context body found (num (pos n)) ≡ ok text
        → (leader_text body ≢ "")
          × (length found ≡ n)
          × (text ≡ healthy_text show (leader_text body) found)
    unfolding judged assert_leader assert_peers is_count
    judged-ok body found h = ground (arith, eq_iff (leader_text body) "")

    answered-Healthy :
        (body : String) (found : List String)
        → Answers S show host context p body found
        → (check_cluster S show host context (num (pos n)) p).result ≡ ok text
        → Healthy host n text
    answered-Healthy body found a h =
        let (led, counted, told) =
          judged-ok body found
            (sym (check_cluster-judged S show host context p body found (num (pos n)) a) ∙ h) in
        record {
          context = context;
          process = p;
          body = body;
          found = found;
          answered = a;
          led = led;
          counted = counted;
          told = told;
        }

    not_failed :
        (e : Exception)
        → (check_cluster S show host context (num (pos n)) p).result ≡ ok text
        → (check_cluster S show host context (num (pos n)) p).result ≡ err e
        → ⊥
    not_failed e h h' = ground (arith, sym h ∙ h')

    no_peers :
        (body : String) (e : Exception)
        → (S.leader host context p.world).0 ≡ ok body
        → assert_leader (leader_text body) ≡ ok tt
        → (S.peers host context (S.leader host context p.world).1).0 ≡ err e
        → (check_cluster S show host context (num (pos n)) p).result ≡ err e
    unfolding check_cluster
    no_peers body e h1 h2 h3 = rw (h1, h2, h3) refl

    check_cluster-Healthy :
        (check_cluster S show host context (num (pos n)) p).result ≡ ok text → Healthy host n text
    unfolding check_cluster
    check_cluster-Healthy h = elim (Result-cases (S.leader host context p.world).0) [
      | inr (e, h1) ↦ absurd (not_failed e h (rw h1 refl))
      | inl (body, h1) ↦ elim (Result-cases (assert_leader (leader_text body))) [
        | inr (e, h2) ↦ absurd (not_failed e h (rw (h1, h2) refl))
        | inl (_, h2) ↦
            elim (Result-cases (S.peers host context (S.leader host context p.world).1).0) [
              | inr (e, h3) ↦ absurd (not_failed e h (no_peers body e h1 h2 h3))
              | inl (found, h3) ↦ answered-Healthy body found (h1, h3) h
            ]
      ]
    ]

  module _ (show_error : Exception → String) (environment arn : Option String) (event : Fields)
      (n : ℕ) (text : String) (p : Process S.World) where
    relabel-ok : (r : Result String) → relabel show_error r ≡ ok text → r ≡ ok text
    relabel-ok (ok a) h = h
    relabel-ok (err e) h = ground arith

    -- The certificate and the state of the process with which the cluster was checked.
    checked_with :
        (lambda_handler S show show_error environment arn event p).result ≡ ok text
        → (context : SslContext) × (p' : Process S.World) × ((check_cluster S show
              (get_consul_host show environment event)
              context
              (expected_peers event)
              p').result
            ≡ ok text)
    unfolding lambda_handler
    checked_with h = elim (Result-cases (get_ssl_context S arn p).result) [
      | inr (c, h1) ↦
          let failed : (lambda_handler S show show_error environment arn event p).result ≡ err c =
            rw h1 refl in
          absurd (ground (arith, sym h ∙ failed))
      | inl (context, h1) ↦
          let p' = (get_ssl_context S arn p).world in
          let checked =
            (check_cluster S show (get_consul_host show environment event) context
              (expected_peers event) p').result in
          let judged : (lambda_handler S show show_error environment arn event p).result
              ≡ relabel show_error checked =
            rw h1 refl in
          (context, p', relabel-ok checked (sym judged ∙ h))
    ]

    -- A health check passes only if Consul, at the host of the event, named a leader and as many peers
    -- as the event expects, five if it does not say; its text says so.
    pub lambda_handler-Healthy :
        expected_peers event ≡ num (pos n)
        → (lambda_handler S show show_error environment arn event p).result ≡ ok text
        → Healthy (get_consul_host show environment event) n text
    lambda_handler-Healthy e h =
        let (context, p', x) = checked_with h in
        check_cluster-Healthy (get_consul_host show environment event) context n text p' (rw e at x)
