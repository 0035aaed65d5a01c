-- ===== src/Flows/Consul/Order.antt =====
-- An execution of the state machine of a Consul cluster keeps to the protocol.
use aws_autorecycle.Base.{String, ◌≡◌, refl, true, none, some, List, [], ◌∷◌, ◌==◌, eq_iff}
use aws_autorecycle.Exceptions.{Result, ok, err, exception, NoneType}
use aws_autorecycle.Effect.{attempt, raise, ◌>>◌}
use aws_autorecycle.Effect.Follows.{
  Follows, Follows-pure, Follows-raise, Follows-ask, Follows-weaken, Follows-attempt, Follows-bind,
}
use aws_autorecycle.Consul.Nodes.{Node}
use aws_autorecycle.Flows.Consul.{
  Tasks, started, completed, failed, notified, checked, listed, sent_leave, terminated, notify,
  check_health, get_nodes, leave, terminate, pause, or_again, retry, recycle_node,
  for_each_instance, main_flow, recycle_consul_agents,
}
use aws_autorecycle.Flows.Consul.Protocol.{
  State, starting, healthy, waiting, has_left, may_go, has_gone, finished, broken, stopped,
  next_state, EndsIn, IsUnderWay, Led, Led-EndsIn, pause-EndsIn, retry-EndsIn, asks, then_Led,
}

module _ (T : Tasks) where
  module _ (cluster : String) where
    first_check :
        Follows next_state starting (EndsIn healthy starting) (check_health T cluster none)
    first_check = asks T healthy starting (checked none) _ (λ t. refl) (λ e. refl)

    module _ (n : Node) (nodes : List Node) where
      same_ident : (n.instance_id == n.instance_id) ≡ true
      same_ident = (eq_iff n.instance_id n.instance_id).1 refl

      leave_node :
          Follows next_state
            (waiting (n ∷ nodes))
            (EndsIn (has_left n nodes) broken)
            (leave T n.instance_id)
      leave_node =
          asks T (has_left n nodes) broken (sent_leave n.instance_id) _ (λ _. rw same_ident refl)
            (λ e. refl)

      check_without :
          Follows next_state
            (has_left n nodes)
            (EndsIn (may_go n nodes) (has_left n nodes))
            (check_health T cluster (some 4))
      check_without =
          asks T (may_go n nodes) (has_left n nodes) (checked (some 4)) _ (λ t. refl) (λ e. refl)

      terminate_node :
          Follows next_state
            (may_go n nodes)
            (EndsIn (has_gone n nodes) broken)
            (terminate T n.instance_id)
      terminate_node =
          asks T (has_gone n nodes) broken (terminated n.instance_id) _ (λ _. rw same_ident refl)
            (λ e. refl)

      check_replaced :
          Follows next_state
            (has_gone n nodes)
            (EndsIn (waiting nodes) (has_gone n nodes))
            (check_health T cluster none)
      check_replaced =
          asks T (waiting nodes) (has_gone n nodes) (checked none) _ (λ t. refl) (λ e. refl)

      recycle_node-Led :
          Follows next_state (waiting (n ∷ nodes)) (Led (waiting nodes)) (recycle_node T cluster n)
      unfolding recycle_node
      recycle_node-Led =
          let out = has_left n nodes in
          let gone = has_gone n nodes in
          then_Led T out broken (leave T n.instance_id) _ (λ r. refl) leave_node
            (λ _.
              then_Led T out out (pause T 120) _ (λ r. refl) (pause-EndsIn T out 120 refl)
                (λ _.
                  then_Led T (may_go n nodes) out (retry T 4 120 (check_health T cluster (some 4)))
                    _ (λ r. refl)
                    (retry-EndsIn T out (may_go n nodes) _ (λ s. refl) 4 120 check_without)
                    (λ _.
                      then_Led T gone broken (terminate T n.instance_id) _ (λ r. refl)
                        terminate_node
                        (λ _.
                          then_Led T gone gone (pause T 300) _ (λ r. refl)
                            (pause-EndsIn T gone 300 refl)
                            (λ _.
                              then_Led T (waiting nodes) gone
                                (retry T 6 180 (check_health T cluster none)) _ (λ r. refl)
                                (retry-EndsIn T gone (waiting nodes) _ (λ s. refl) 6 180
                                  check_replaced)
                                (λ _. Follows-pure tt refl))))))

    for_each_instance-Led :
        (nodes : List Node)
        → Follows next_state (waiting nodes) (Led (waiting [])) (for_each_instance T cluster nodes)
    unfolding for_each_instance
    for_each_instance-Led [] = Follows-pure tt refl
    for_each_instance-Led (n ∷ nodes) =
        Follows-bind (Led (waiting nodes)) (recycle_node T cluster n) _ (recycle_node-Led n nodes)
          (λ _ q x. rw x (for_each_instance-Led nodes)) (λ e q x. x)

    Listed : Result (List Node) → State → Type 0
    Listed (ok nodes) q = q ≡ waiting nodes
    Listed (err e) q = IsUnderWay q

    get_nodes-Listed : Follows next_state healthy Listed (get_nodes T cluster)
    unfolding Listed
    get_nodes-Listed = Follows-ask listed _ answer
      where
        answer :
            (r : Result (List Node))
            → (q : State) × (next_state healthy (listed r) ≡ some q) × Listed r q
        answer (ok nodes) = (waiting nodes, refl, refl)
        answer (err e) = (broken, refl, λ r. refl)

    main_flow-Led : Follows next_state starting (Led finished) (main_flow T cluster)
    unfolding main_flow Listed
    main_flow-Led =
        then_Led T starting broken (notify T started) _ (λ r. refl)
          (asks T starting broken (notified started) _ (λ _. refl) (λ e. refl))
          (λ _.
            then_Led T healthy starting (retry T 4 120 (check_health T cluster none)) _ (λ r. refl)
              (retry-EndsIn T starting healthy _ (λ s. refl) 4 120 first_check)
              (λ _.
                Follows-bind Listed (get_nodes T cluster) _ get_nodes-Listed
                  (λ nodes q x. rw x (
                    Follows-bind (Led (waiting [])) (for_each_instance T cluster nodes) _
                      (for_each_instance-Led nodes)
                      (λ _ q' y. rw y (
                        Follows-weaken
                          (asks T finished broken (notified completed) (T.notify completed)
                            (λ _. refl) (λ e. refl))
                          (λ r q'' z. Led-EndsIn finished broken r q'' (λ r. refl) z)))
                      (λ e q' y. y)))
                  (λ e q x. x)))

    -- An execution starts with a passed health check, lists the nodes, and takes them one by one in
    -- the order of the list. It terminates no instance but that of the node which it just asked to
    -- leave, after a check for four peers has passed, and goes on to the next node only after a check
    -- for five peers has. After any task that fails for good it does nothing but announce the failure.
    -- It succeeds exactly if every node was taken and the completion was announced.
    pub recycle_order :
        Follows next_state starting (EndsIn finished stopped) (recycle_consul_agents T cluster)
    unfolding recycle_consul_agents
    recycle_order =
        Follows-bind Caught (attempt (main_flow T cluster)) _
          (Follows-attempt (Follows-weaken main_flow-Led (λ r q x. x))) fail_or_end
          (λ e q x. absurd x)
      where
        Caught : Result (Result NoneType) → State → Type 0
        Caught (ok r) q = Led finished r q
        Caught (err e) q = ⊥

        Stopped : Result (Result NoneType) → State → Type 0
        Stopped r q = q ≡ stopped

        announce :
            (q : State) → IsUnderWay q → Follows next_state q Stopped (attempt (notify T failed))
        announce q u = Follows-attempt (Follows-ask (notified failed) _ (λ r. (stopped, u r, refl)))

        fail_or_end :
            (r : Result NoneType) (q : State)
            → Led finished r q
            → Follows next_state q (EndsIn finished stopped) (
                or_again T (attempt (notify T failed) >> raise (exception "AutoRecyclingFailed")) r)
        fail_or_end (ok a) q x = Follows-pure a x
        fail_or_end (err e) q u =
            Follows-bind Stopped (attempt (notify T failed))
              (λ _. raise (exception "AutoRecyclingFailed")) (announce q u)
              (λ _ q' y. Follows-raise _ y) (λ e q' y. y)
