-- ===== src/Mongo/Protocol/Connectors.antt =====
-- The methods of `AWS`, `Mongo` and `ReplicaSetHealth` keep to the protocol.
use aws_autorecycle.Base.{
  String, ◌≡◌, refl, ap, Bool, false, Bool-cases, inl, inr, some, List, arith,
}
use aws_autorecycle.Exceptions.{Exception, Result, ok, err, NoneType}
use aws_autorecycle.Effect.{◌>>=◌}
use aws_autorecycle.Effect.Follows.{
  Follows-pure, Follows-lift, Follows-bind, Follows-ask, Follows-attempt,
}
use aws_autorecycle.Mongo.Services.{
  Services, Run, ReplicaSetStatus, ReplicaSetConfig, connect, connected, get_status, got_status,
  get_config, got_config, reconfigure, reconfigured, replace_primary, stepped_down,
  described_instances, describe_instances, described_instance, describe_instance,
}
use aws_autorecycle.Mongo.Aws.{get_mongo_db_instances}
use aws_autorecycle.Mongo.Database.{
  replica_set_status, set_chaining, step_down, forgive_reconnect, apply_chaining, same,
}
use aws_autorecycle.Mongo.Health.{
  assert_replica_set_healthy, connection_string, assert_healthy, wait_until_cluster_healthy,
}
use aws_autorecycle.Mongo.Protocol.{
  Phase, unknown, chained, stepping, on_healthy, on_status, on_config, on_reconfigure, Returning,
}
use aws_autorecycle.Mongo.Protocol.Polling.{Keeps, poll-Keeps}

-- The phase does not change, whatever the result.
abbrev pub Stays : Phase → {A : Type 0} → Result A → Phase → Type 0
Stays p r q = q ≡ p

module _ (S : Services) where
  -- A run of reads, followed by a run that keeps to the protocol.
  pub Keeps-reads :
      {A B : Type 0} {p : Phase} {Q : Result B → Phase → Type 0} (m : Run S A) (f : A → Run S B)
      → Keeps S p (Stays p) m
      → ((a : A) → Keeps S p Q (f a))
      → ((e : Exception) → Q (err e) p)
      → Keeps S p Q (m >>= f)
  Keeps-reads {p = p} {Q = Q} m f h good bad =
      Follows-bind (Stays p) m f h (λ a q e. rw e (good a)) (λ c q e. rw e (bad c))

  pub connect-Stays : (host : String) (p : Phase) → Keeps S p (Stays p) (connect S host)
  connect-Stays host p = Follows-ask (λ _. connected host) _ (λ r. (p, refl, refl))

  describe_instances-Stays :
      (names : List String) (p : Phase) → Keeps S p (Stays p) (describe_instances S names)
  describe_instances-Stays names p =
      Follows-ask (λ _. described_instances names) _ (λ r. (p, refl, refl))

  pub describe_instance-Stays :
      (ident : String) (p : Phase) → Keeps S p (Stays p) (describe_instance S ident)
  describe_instance-Stays ident p =
      Follows-ask (λ _. described_instance ident) _ (λ r. (p, refl, refl))

  pub get_mongo_db_instances-Stays :
      (component : String) (p : Phase) → Keeps S p (Stays p) (get_mongo_db_instances S component)
  unfolding get_mongo_db_instances
  get_mongo_db_instances-Stays component p =
      Keeps-reads _ _ (describe_instances-Stays _ p) (λ rs. Follows-pure _ refl) (λ e. refl)

  -- After a status was read, the phase is the one that follows it.
  abbrev pub Read : Phase → Result ReplicaSetStatus → Phase → Type 0
  Read p r q = q ≡ on_status p r

  pub get_status-Read : (host : String) (p : Phase) → Keeps S p (Read p) (get_status S host)
  get_status-Read host p = Follows-ask (got_status host) _ (λ r. (on_status p r, refl, refl))

  replica_set_status-Read :
      (host : String) (p : Phase) → Keeps S p (Read p) (replica_set_status S host)
  unfolding replica_set_status
  replica_set_status-Read host p =
      Keeps-reads (connect S host) _ (connect-Stays host p) (λ _. get_status-Read host p)
        (λ e. refl)

  -- A check of the health that passes has read a healthy status; one that fails changes no phase.
  abbrev pub Checked : Phase → Result NoneType → Phase → Type 0
  Checked p (ok a) q = q ≡ on_healthy p
  Checked p (err e) q = q ≡ p

  Checked-status :
      (p : Phase) (status : ReplicaSetStatus)
      → Checked p (assert_replica_set_healthy status) (on_status p (ok status))
  Checked-status p status = go (assert_replica_set_healthy status)
    where
      go : (r : Result NoneType) → Checked p r (elim r [ ok _ ↦ on_healthy p | err _ ↦ p ])
      go (ok a) = refl
      go (err e) = refl

  assert_healthy-Checked :
      (component : String) (p : Phase) → Keeps S p (Checked p) (assert_healthy S component)
  unfolding assert_healthy
  assert_healthy-Checked component p =
      Keeps-reads _ _ (get_mongo_db_instances-Stays component p)
        (λ items.
          Keeps-reads _ _ (Follows-lift (connection_string items) refl)
            (λ host.
              Follows-bind (Read p) _ _ (replica_set_status-Read host p)
                (λ status q e.
                  Follows-lift (assert_replica_set_healthy status) (rw e (Checked-status p status)))
                (λ e q h. h))
            (λ e. refl))
        (λ e. refl)

  pub wait_until_cluster_healthy-Checked :
      (component : String) (p : Phase)
      → Keeps S p (Checked p) (wait_until_cluster_healthy S component)
  unfolding wait_until_cluster_healthy
  wait_until_cluster_healthy-Checked component p =
      poll-Keeps S (Checked p) (assert_healthy S component)
        (λ e q h. rw h (assert_healthy-Checked component p)) 60 (some 10) p
        (assert_healthy-Checked component p)

  abbrev ConfigRead : Result ReplicaSetConfig → Phase → Type 0
  ConfigRead = Returning (λ config q. q ≡ chained config.chaining_allowed)

  ConfigRead-on_config : (r : Result ReplicaSetConfig) → ConfigRead r (on_config unknown r)
  ConfigRead-on_config (ok config) = refl
  ConfigRead-on_config (err e) = tt

  get_config-ConfigRead : (host : String) → Keeps S unknown ConfigRead (get_config S host)
  get_config-ConfigRead host =
      Follows-ask (got_config host) _ (λ r. (on_config unknown r, refl, ConfigRead-on_config r))

  reconfigure-Returning :
      (host : String) (config : ReplicaSetConfig) (b : Bool)
      → Keeps S
          (chained b)
          (Returning (λ _ q. q ≡ chained config.chaining_allowed))
          (reconfigure S host config)
  reconfigure-Returning host config b = Follows-ask (reconfigured host config) _ (λ r. answered r)
    where
      answered :
          (r : Result NoneType)
          → (q : Phase) × (on_reconfigure (chained b) config r ≡ some q)
            × Returning (λ _ q. q ≡ chained config.chaining_allowed) r q
      answered (ok a) = (chained config.chaining_allowed, refl, refl)
      answered (err e) = (unknown, refl, tt)

  abbrev pub Chained : Bool → Result ReplicaSetConfig → Phase → Type 0
  Chained wanted = Returning (λ config q. q ≡ chained wanted)

  apply_chaining-Chained :
      (host : String) (wanted : Bool) (config : ReplicaSetConfig)
      → Keeps S
          (chained config.chaining_allowed)
          (Chained wanted)
          (apply_chaining S host wanted config)
  unfolding apply_chaining same
  apply_chaining-Chained host wanted config =
      elim (Bool-cases (same config.chaining_allowed wanted)) [
        | inl e ↦ rw e (Follows-pure config (ap chained (ground arith)))
        | inr e ↦ rw e (
            Follows-bind (Returning (λ _ q. q ≡ chained wanted)) _ _
              (reconfigure-Returning host _ config.chaining_allowed) (λ a q h. Follows-pure _ h)
              (λ e q h. tt))
      ]

  -- `set_chaining` that returns has brought chaining to the wanted setting.
  pub set_chaining-Chained :
      (host : String) (wanted : Bool)
      → Keeps S unknown (Chained wanted) (set_chaining S host wanted)
  unfolding set_chaining
  set_chaining-Chained host wanted =
      Keeps-reads _ _ (connect-Stays host unknown)
        (λ _.
          Follows-bind ConfigRead _ _ (get_config-ConfigRead host)
            (λ config q e. rw e (apply_chaining-Chained host wanted config)) (λ e q h. tt))
        (λ e. tt)

  replace_primary-Stays :
      (address : String)
      → Keeps S (chained false) (Stays (stepping address)) (replace_primary S address 100)
  replace_primary-Stays address =
      Follows-ask (stepped_down address 100) _ (λ r. (stepping address, refl, refl))

  pub Returning-all :
      {A : Type 0} (P : Phase → Type 0) (r : Result A) (q : Phase)
      → P q
      → Returning (λ _ q. P q) r q
  Returning-all P (ok a) q h = h
  Returning-all P (err e) q h = tt

  pub step_down-Returning :
      (address : String)
      → Keeps S (chained false) (Returning (λ _ q. q ≡ stepping address)) (step_down S address)
  unfolding step_down
  step_down-Returning address =
      Keeps-reads _ _ (connect-Stays address (chained false))
        (λ _.
          Follows-bind (Stays (stepping address)) _ _
            (Follows-attempt (replace_primary-Stays address))
            (λ answer q e.
              Follows-lift (forgive_reconnect answer)
                (Returning-all (λ q. q ≡ stepping address) (forgive_reconnect answer) q e))
            (λ e q h. tt))
        (λ e. tt)
