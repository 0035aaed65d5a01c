-- ===== src/Consul/Trust/Handlers.antt =====
-- The two Lambda functions that ask Consul, each with its certificate.
use aws_autorecycle.Base.{String, ◌≡◌, ◌≢◌, refl, ap, Option, none, some, List, [], ◌∷◌}
use aws_autorecycle.Exceptions.{Exception, Result}
use aws_autorecycle.Effect.{Run, attempt, continue, ◌>>=◌}
use aws_autorecycle.Effect.Follows.{
  Follows, accept, continue-accepted, Follows-lift, Follows-pure, Follows-ask, Follows-attempt,
  Follows-bind, Follows-weaken,
}
use aws_autorecycle.Json.{Json, Fields}
use aws_autorecycle.Consul.Services.{
  Services, Process, SslContext, Call, leader, read_leader, members, read_members, peers,
  read_peers, describe_instances, described_instances,
}
use aws_autorecycle.Consul.Certificate.{get_consul_host, get_ssl_context}
use aws_autorecycle.Consul.Health
use aws_autorecycle.Consul.Health.{check_cluster}
use aws_autorecycle.Consul.Nodes
use aws_autorecycle.Consul.Nodes.{get_instance_map, list_nodes}
use aws_autorecycle.Consul.Trust.{
  Stage, trusted, stage_of, next_stage, NamesFiles, Ready, Prepares, Prepares-kept,
  Prepares-unfetched, same_text,
}

module _ (S : Services) (arn host : String) where
  -- The run keeps to what is allowed with the file loaded.
  Trusting : String → {A : Type 0} → Run (Process S.World) Call A → Type 0
  Trusting path m = Follows (next_stage arn host) (trusted path) (λ r q. q ≡ trusted path) m

  module _ (path : String) where
    Trusting-bind :
        {A B : Type 0} (m : Run (Process S.World) Call A) (f : A → Run (Process S.World) Call B)
        → Trusting path m
        → ((a : A) → Trusting path (f a))
        → Trusting path (m >>= f)
    unfolding Trusting
    Trusting-bind m f h k =
        Follows-bind (λ r q. q ≡ trusted path) m f h (λ a q e. rw e (k a)) (λ c q e. e)

    leader-Trusting : Trusting path (leader S host (some path))
    unfolding Trusting next_stage
    leader-Trusting =
        Follows-ask (λ _. read_leader host (some path)) _
          (λ r. (trusted path, rw (same_text host, same_text path) refl, refl))

    peers-Trusting : Trusting path (peers S host (some path))
    unfolding Trusting next_stage
    peers-Trusting =
        Follows-ask (λ _. read_peers host (some path)) _
          (λ r. (trusted path, rw (same_text host, same_text path) refl, refl))

    members-Trusting : Trusting path (members S host (some path))
    unfolding Trusting next_stage
    members-Trusting =
        Follows-ask (λ _. read_members host (some path)) _
          (λ r. (trusted path, rw (same_text host, same_text path) refl, refl))

    check_cluster-Trusting :
        (show : Json → String) (expected : Json)
        → Trusting path (check_cluster S show host (some path) expected)
    unfolding check_cluster Trusting
    check_cluster-Trusting show expected =
        Trusting-bind (leader S host (some path)) _ leader-Trusting (λ body.
          Trusting-bind _ _ (Follows-lift _ refl) (λ _.
            Trusting-bind (peers S host (some path)) _ peers-Trusting
              (λ found. Trusting-bind _ _ (Follows-lift _ refl) (λ _. Follows-pure _ refl))))

    get_instance_map-Trusting : (ips : List String) → Trusting path (get_instance_map S ips)
    unfolding get_instance_map Trusting next_stage
    get_instance_map-Trusting [] = Follows-pure [] refl
    get_instance_map-Trusting (ip ∷ ips) =
        Trusting-bind (describe_instances S (ip ∷ ips)) _
          (Follows-ask (λ _. described_instances (ip ∷ ips)) _ (λ r. (trusted path, refl, refl)))
          (λ instances. Follows-pure _ refl)

    list_nodes-Trusting : Trusting path (list_nodes S host (some path))
    unfolding list_nodes Trusting
    list_nodes-Trusting = Trusting-bind (leader S host (some path)) _ leader-Trusting (λ body.
        Trusting-bind (members S host (some path)) _ members-Trusting (λ found.
          Trusting-bind (get_instance_map S _) _ (get_instance_map-Trusting _)
            (λ instance_map. Follows-pure _ refl)))

module _ (S : Services) (arn host : String) where
  prepare :
      NamesFiles S
      → arn ≢ ""
      → (w : S.World) (cert : Option String) → cert ≢ some ""
      → Prepares S arn host (stage_of cert) (record { world = w; cert_path = cert })
  prepare names configured w none h = Prepares-unfetched S arn host names configured w
  prepare names configured w (some path) h = Prepares-kept S arn host path w (λ e. h (ap some e))

  -- What follows on the making of the context.
  Then : {A : Type 0} → Result A → Stage → Type 0
  Then r q = Unit

  then-Trusting :
      {A : Type 0} (start q : Stage) (r : Result SslContext) (calls : List Call)
      (p : Process S.World) (f : SslContext → Run (Process S.World) Call A)
      → accept (next_stage arn host) start calls ≡ some q
      → Ready r q
      → ((path : String) → Trusting S arn host path (f (some path)))
      → (q' : Stage) × (accept (next_stage arn host) start (continue r calls p f).calls ≡ some q')
  unfolding Trusting Then
  then-Trusting start q r calls p f e ready h =
      let (q', e', _) =
        continue-accepted Ready Then f start q r calls p e ready
          (λ context q (path, at, is). rw (at, is) (Follows-weaken (h path) (λ r q _. tt)))
          (λ e q x. tt) in
      (q', e')

module _ (S : Services) (show : Json → String) (show_error : Exception → String)
    (environment : Option String) (arn : String) (event : Fields) where
  -- The calls of a run in the process keep to the order, with the host of the event.
  abbrev pub Trusts : Process S.World → List Call → Type 0
  Trusts p calls =
      (q : Stage) × (accept (next_stage arn (get_consul_host show environment event))
          (stage_of p.cert_path) calls
        ≡ some q)

  -- If a certificate is configured and files have names, then in every process whose certificate is
  -- not in a file without a name, a run of either function fetches the certificate unless it was
  -- fetched before, writes what was fetched to a file, loads that file, and only then asks Consul, at
  -- the host of the event and with that file loaded each time. After a failure to fetch, to write or
  -- to load, it calls nothing more.
  pub lambda_handler-Trusts :
      NamesFiles S
      → arn ≢ ""
      → (p : Process S.World) → p.cert_path ≢ some ""
      → Trusts p (Health.lambda_handler S show show_error environment (some arn) event p).calls
        × Trusts p (Nodes.lambda_handler S show show_error environment (some arn) event p).calls
  unfolding Health.lambda_handler Nodes.lambda_handler Trusting
  lambda_handler-Trusts names configured p h =
      let host = get_consul_host show environment event in
      let (q, taken, ready) = prepare S arn host names configured p.world p.cert_path h in
      let o = get_ssl_context S (some arn) p in
      let start = stage_of p.cert_path in
      (
        then-Trusting S arn host start q o.result o.calls o.world _ taken ready (λ path.
            Trusting-bind S arn host path (attempt (check_cluster S show host (some path) _)) _
              (Follows-attempt (check_cluster-Trusting S arn host path show _))
              (λ r. Follows-lift (Health.relabel show_error r) refl)),
        then-Trusting S arn host start q o.result o.calls o.world _ taken ready (λ path.
            Trusting-bind S arn host path (attempt (list_nodes S host (some path))) _
              (Follows-attempt (list_nodes-Trusting S arn host path))
              (λ r. Follows-lift (Nodes.relabel show_error r) refl)),
      )
