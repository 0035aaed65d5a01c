-- ===== src/Flows/Consul/Lambdas/Assured.antt =====
-- What each passed check says, in an execution of the state machine with the lambdas.
use aws_autorecycle.Base.{
  ℕ, ◌*◌, suc, zero, pos, String, ◌≡◌, refl, Option, none, some, List, [], ◌∷◌, All,
}
use aws_autorecycle.Exceptions.{Exception, Result, ok, err, exception}
use aws_autorecycle.Effect.{attempt}
use aws_autorecycle.Effect.Each.{Each, Each-pure, Each-raise, Each-ask, Each-attempt, Each-bind}
use aws_autorecycle.Json.{Json, num, lookup}
use aws_autorecycle.Consul.Services.{Services, Process}
use aws_autorecycle.Consul.Nodes
use aws_autorecycle.Consul.Nodes.{Node}
use aws_autorecycle.Consul.Nodes.Found.{Found, lambda_handler-Found}
use aws_autorecycle.Consul.Certificate.{get_consul_host}
use aws_autorecycle.Consul.Health.{expected_peers, lambda_handler}
use aws_autorecycle.Consul.Health.Passed.{Healthy, lambda_handler-Healthy}
use aws_autorecycle.Flows.Consul.{
  Tasks, Notice, started, completed, failed, Call, notified, listed, sent_leave, terminated,
  checked, health_event, Run, notify, check_health, get_nodes, leave, terminate, pause, or_again,
  retry, recycle_node, for_each_instance, main_flow, recycle_consul_agents,
}
use aws_autorecycle.Flows.Consul.Lambdas.{Integrations, lambdas}

-- A property of the health checks among the calls, and one of the lists of nodes.
abbrev pub OnAnswers :
    (Option ℕ → Result String → Type 0) → (Result (List Node) → Type 0) → Call → Type 0
OnAnswers Q R (checked e r) = Q e r
OnAnswers Q R (listed r) = R r
OnAnswers Q R _ = Unit

module _ (T : Tasks) (cluster : String) (Q : Option ℕ → Result String → Type 0)
    (of_check : (e : Option ℕ) (w : T.World) → Q e (T.check_health (health_event cluster e) w).0)
    (R : Result (List Node) → Type 0)
    (of_list : (w : T.World) → R (T.get_nodes (health_event cluster none) w).0) where
  abbrev P : Call → Type 0
  P = OnAnswers Q R

  check_health-Each : (e : Option ℕ) → Each P (check_health T cluster e)
  check_health-Each e = Each-ask (checked e) _ (of_check e)

  pause-Each : (seconds : ℕ) → Each P (pause T seconds)
  pause-Each seconds = record { at = λ w. (tt, tt) }

  or_again-Each :
      {A : Type 0} (again : Run T A) (r : Result A) → Each P again → Each P (or_again T again r)
  or_again-Each again (ok a) h = Each-pure a
  or_again-Each again (err e) h = h

  retry-Each :
      {A : Type 0} (n seconds : ℕ) (task : Run T A) → Each P task → Each P (retry T n seconds task)
  unfolding retry
  retry-Each zero seconds task h = h
  retry-Each (suc n) seconds task h = Each-bind (attempt task) _ (Each-attempt h) (λ r.
      or_again-Each _ r (
        Each-bind (pause T seconds) _ (pause-Each seconds)
          (λ _. retry-Each n (seconds * 2) task h)))

  recycle_node-Each : (node : Node) → Each P (recycle_node T cluster node)
  unfolding recycle_node
  recycle_node-Each node =
      Each-bind (leave T node.instance_id) _ (Each-ask (sent_leave node.instance_id) _ (λ w. tt))
        (λ _. Each-bind (pause T 120) _ (pause-Each 120) (λ _.
          Each-bind (retry T 4 120 (check_health T cluster (some 4))) _
            (retry-Each 4 120 _ (check_health-Each (some 4)))
            (λ _.
              Each-bind (terminate T node.instance_id) _
                (Each-ask (terminated node.instance_id) _ (λ w. tt))
                (λ _. Each-bind (pause T 300) _ (pause-Each 300) (λ _.
                  Each-bind (retry T 6 180 (check_health T cluster none)) _
                    (retry-Each 6 180 _ (check_health-Each none)) (λ _. Each-pure tt))))))

  for_each_instance-Each : (nodes : List Node) → Each P (for_each_instance T cluster nodes)
  unfolding for_each_instance
  for_each_instance-Each [] = Each-pure tt
  for_each_instance-Each (node ∷ nodes) =
      Each-bind (recycle_node T cluster node) _ (recycle_node-Each node)
        (λ _. for_each_instance-Each nodes)

  notify-Each : (n : Notice) → Each P (notify T n)
  notify-Each n = Each-ask (notified n) _ (λ w. tt)

  recycle-Each : Each P (recycle_consul_agents T cluster)
  unfolding recycle_consul_agents main_flow
  recycle-Each =
      Each-bind (attempt (main_flow T cluster)) _
        (Each-attempt (
          Each-bind (notify T started) _ (notify-Each started) (λ _.
            Each-bind (retry T 4 120 (check_health T cluster none)) _
              (retry-Each 4 120 _ (check_health-Each none))
              (λ _. Each-bind (get_nodes T cluster) _ (Each-ask listed _ of_list) (λ nodes.
                Each-bind (for_each_instance T cluster nodes) _ (for_each_instance-Each nodes)
                  (λ _. notify-Each completed))))))
        (λ r. or_again-Each _ r (
          Each-bind (attempt (notify T failed)) _ (Each-attempt (notify-Each failed))
            (λ _. Each-raise (exception "AutoRecyclingFailed"))))

-- The peers that a check expects.
abbrev pub peers_of : Option ℕ → ℕ
peers_of none = 5
peers_of (some n) = n

health_event-peers_of :
    (cluster : String) (e : Option ℕ)
    → expected_peers (health_event cluster e) ≡ num (pos (peers_of e))
unfolding expected_peers lookup
health_event-peers_of cluster none = refl
health_event-peers_of cluster (some n) = refl

module _ (S : Services) (show : Json → String) (show_error : Exception → String)
    (environment : Option String) (arn : Option String) (I : Integrations S.World)
    (cluster : String) where
  -- A check that passed says that Consul named a leader and the expected number of peers.
  abbrev pub Assures : Option ℕ → Result String → Type 0
  Assures e (err c) = Unit
  Assures e (ok text) =
      Healthy S show (get_consul_host show environment (health_event cluster e)) (peers_of e) text

  -- A list that was returned has the instances of the nodes, those with the leader's address last.
  abbrev pub Tells : Result (List Node) → Type 0
  Tells (err c) = Unit
  Tells (ok nodes) = Found S (get_consul_host show environment (health_event cluster none)) nodes

  -- In every execution of the state machine with the lambdas, Consul, at the host of the cluster, named
  -- a leader and as many peers as expected, five if the machine does not say, for each health check
  -- that passed; and in each list of nodes that the machine was given, every node has the identifier
  -- of an instance with its address, and any with the address of the leader that Consul named are
  -- last.
  pub recycle-Assures :
      (w : (lambdas S show show_error environment arn I).World)
      → All
          (OnAnswers Assures Tells)
          (recycle_consul_agents (lambdas S show show_error environment arn I) cluster w).calls
  recycle-Assures w =
      (recycle-Each (lambdas S show show_error environment arn I) cluster Assures assured Tells
          tells).at
        w
    where
      told :
          (e : Option ℕ) (p : Process S.World) (r : Result String)
          → (lambda_handler S show show_error environment arn (health_event cluster e) p).result ≡ r
          → Assures e r
      told e p (ok text) h =
          lambda_handler-Healthy S show show_error environment arn (health_event cluster e)
            (peers_of e) text p (health_event-peers_of cluster e) h
      told e p (err c) h = tt

      assured :
          (e : Option ℕ) (s : (lambdas S show show_error environment arn I).World)
          → Assures e
              ((lambdas S show show_error environment arn I).check_health
                (health_event cluster e)
                s).0
      assured e s = told e (record { world = s.outside; cert_path = s.health_cert }) _ refl

      found :
          (p : Process S.World) (r : Result (List Node))
          → (Nodes.lambda_handler S show show_error environment arn
              (health_event cluster none)
              p).result
            ≡ r
          → Tells r
      found p (ok nodes) h =
          lambda_handler-Found S show show_error environment arn (health_event cluster none) nodes p
            h
      found p (err c) h = tt

      tells :
          (s : (lambdas S show show_error environment arn I).World)
          → Tells
              ((lambdas S show show_error environment arn I).get_nodes
                (health_event cluster none)
                s).0
      tells s = found (record { world = s.outside; cert_path = s.nodes_cert }) _ refl
