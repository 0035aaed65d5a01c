-- ===== src/Mongo/Execute/Order.antt =====
-- `execute_action` keeps to the protocol and, if it returns, has come to its end.
use aws_autorecycle.Base.{String, ◌≡◌, refl, true, false, none, some}
use aws_autorecycle.Exceptions.{Result, ok, err, NoneType}
use aws_autorecycle.Effect.{◌>>◌}
use aws_autorecycle.Effect.Follows.{Follows-pure, Follows-lift, Follows-bind, Follows-weaken}
use aws_autorecycle.Mongo.Models.{
  Instance, Decision, done, recycle_secondary, step_down_and_recycle_primary,
}
use aws_autorecycle.Mongo.Services.{Services, Run}
use aws_autorecycle.Mongo.Aws.{recycle_instance}
use aws_autorecycle.Mongo.Health.{connection_string, wait_until_cluster_healthy}
use aws_autorecycle.Mongo.Execute.{recycle, act, execute_action}
use aws_autorecycle.Mongo.Protocol.{
  Phase, unknown, chained, stepping, stepped, recovered, on_healthy, on_terminate, Completes,
  Returning,
}
use aws_autorecycle.Mongo.Protocol.Polling.{Keeps}
use aws_autorecycle.Mongo.Protocol.Connectors.{
  Keeps-reads, Checked, get_mongo_db_instances-Stays, wait_until_cluster_healthy-Checked,
  set_chaining-Chained, step_down-Returning,
}
use aws_autorecycle.Mongo.Protocol.Recycling.{ListsRequested, recycle_instance-Returning}

module _ (S : Services) (promise : ListsRequested S) (component : String) where
  -- The run leaves the given phase behind, if it returns.
  abbrev Reaches : {A : Type 0} → Phase → Run S A → Phase → Type 0
  Reaches after m p = Keeps S p (Returning (λ _ q. q ≡ after)) m

  wait-Reaches : (p : Phase) → Reaches (on_healthy p) (wait_until_cluster_healthy S component) p
  wait-Reaches p =
      Follows-weaken (wait_until_cluster_healthy-Checked S component p) (λ r q h. returned r q h)
    where
      returned :
          (r : Result NoneType) (q : Phase)
          → Checked S p r q
          → Returning (λ _ q. q ≡ on_healthy p) r q
      returned (ok a) q h = h
      returned (err e) q h = tt

  then-Reaches :
      {A B : Type 0} {p q : Phase} (m : Run S A) (k : Run S B) (after : Phase)
      → Reaches q m p
      → Reaches after k q
      → Reaches after (m >> k) p
  then-Reaches {q = q} m k after hm hk =
      Follows-bind (Returning (λ _ q'. q' ≡ q)) m _ hm (λ _ q' e. rw e hk) (λ e q' h. tt)

  -- From the phase in which the node may be terminated, to the end.
  rest-Reaches :
      (i : Instance) (p after : Phase)
      → on_terminate p i.instance_id ≡ some after
      → Reaches
          (on_healthy after)
          (recycle_instance S i >> wait_until_cluster_healthy S component)
          p
  rest-Reaches i p after allows =
      then-Reaches _ _ _ (recycle_instance-Returning S promise i p after allows)
        (wait-Reaches after)

  recycle_secondary-Reaches :
      (i : Instance)
      → Reaches
          (recovered none i.instance_id)
          (recycle S component (recycle_secondary i) i)
          (chained false)
  unfolding recycle
  recycle_secondary-Reaches i =
      then-Reaches _ _ _ (Follows-pure tt refl) (rest-Reaches i (chained false) _ refl)

  step_down-Reaches :
      (i : Instance)
      → Reaches
          (recovered (some i.ip_address) i.instance_id)
          (recycle S component (step_down_and_recycle_primary i) i)
          (chained false)
  unfolding recycle
  step_down-Reaches i =
      then-Reaches _ _ _
        (then-Reaches _ _ _ (step_down-Returning S i.ip_address)
          (wait-Reaches (stepping i.ip_address)))
        (rest-Reaches i (stepped i.ip_address) _ refl)

  act-Completes :
      (d : Decision) (host : String)
      → Keeps S unknown (Returning (λ _ q. Completes d q)) (act S component d host)
  unfolding act
  act-Completes done host =
      then-Reaches _ _ _ (set_chaining-Chained S host true) (Follows-pure tt refl)
  act-Completes (recycle_secondary i) host =
      then-Reaches _ _ _ (set_chaining-Chained S host false) (recycle_secondary-Reaches i)
  act-Completes (step_down_and_recycle_primary i) host =
      then-Reaches _ _ _ (set_chaining-Chained S host false) (step_down-Reaches i)

  pub execute_action-Completes :
      (d : Decision)
      → Keeps S unknown (Returning (λ _ q. Completes d q)) (execute_action S component d)
  unfolding execute_action
  execute_action-Completes d =
      Keeps-reads S _ _ (get_mongo_db_instances-Stays S component unknown)
        (λ items.
          Keeps-reads S _ _ (Follows-lift (connection_string items) refl)
            (λ host. act-Completes d host) (λ e. tt))
        (λ e. tt)
