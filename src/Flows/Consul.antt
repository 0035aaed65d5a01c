-- ===== src/Flows/Consul.antt =====
-- terraform/consul_recycle_state_machine.tf: the state machine that recycles the nodes of a Consul
-- cluster, one at a time. A state of the machine that fails ends the main flow.
pub mod Protocol
pub mod Order
pub mod Lambdas
use aws_autorecycle.Base.{ℕ, ◌*◌, suc, zero, pos, String, Option, none, some, List, [], ◌∷◌}
use aws_autorecycle.Exceptions.{Result, ok, err, exception, NoneType}
use aws_autorecycle.Effect
use aws_autorecycle.Effect.{pure, raise, attempt, ask, ◌>>=◌, ◌>>◌}
use aws_autorecycle.Json.{Json, num, str, Fields, end, field}
use aws_autorecycle.Consul.Nodes.{Node}
use aws_autorecycle.Consul.Terminate.{Response}

-- StartNotification, EndNotification and FailureNotification
pub data Notice : Type 0 where
  started completed failed : Notice

pub data Call : Type 0 where
  notified : Notice → Result NoneType → Call
  -- with "expectedPeers", if it is given
  checked : Option ℕ → Result String → Call
  listed : Result (List Node) → Call
  sent_leave : String → Result NoneType → Call
  terminated : String → Result Response → Call
  paused : ℕ → Call

-- The tasks of the machine: the lambdas by their events, and two integrations.
pub record Tasks : Type 1 where
  pub World : Type 0
  pub notify : Notice → World → Result NoneType × World
  pub check_health : Fields → World → Result String × World
  pub get_nodes : Fields → World → Result (List Node) × World
  pub leave : String → World → Result NoneType × World
  pub terminate : Fields → World → Result Response × World
  pub pause : ℕ → World → World

-- `$$.Execution.Input.cluster` and "expectedPeers"
abbrev pub health_event : String → Option ℕ → Fields
health_event cluster none = field "cluster" (str cluster) end
health_event cluster (some n) =
    field "cluster" (str cluster) (field "expectedPeers" (num (pos n)) end)

module _ (T : Tasks) where
  abbrev pub Run : Type 0 → Type 0
  Run A = Effect.Run T.World Call A

  abbrev pub notify : Notice → Run NoneType
  notify notice = ask (notified notice) (T.notify notice)

  abbrev pub check_health : String → Option ℕ → Run String
  check_health cluster expected =
      ask (checked expected) (T.check_health (health_event cluster expected))

  abbrev pub get_nodes : String → Run (List Node)
  get_nodes cluster = ask listed (T.get_nodes (field "cluster" (str cluster) end))

  abbrev pub leave : String → Run NoneType
  leave ident = ask (sent_leave ident) (T.leave ident)

  abbrev pub terminate : String → Run Response
  terminate ident = ask (terminated ident) (T.terminate (field "instanceId" (str ident) end))

  abbrev pub pause : ℕ → Run NoneType
  pause seconds w = record {
    result = ok tt;
    calls = paused seconds ∷ [];
    world = T.pause seconds w;
  }

  abbrev pub or_again : {A : Type 0} → Run A → Result A → Run A
  or_again again (ok a) = pure a
  or_again again (err e) = again

  -- "Retry": as many more attempts, with a "BackoffRate" of 2.
  unfoldable pub retry : {A : Type 0} → ℕ → ℕ → Run A → Run A
  retry zero seconds task = task
  retry (suc max_attempts) seconds task =
      let again = retry max_attempts (seconds * 2) task in
      attempt task >>= or_again (pause seconds >> again)

  -- The "Iterator" of ForEachInstance.
  unfoldable pub recycle_node : String → Node → Run NoneType
  recycle_node cluster node = do
    leave node.instance_id
    pause 120
    retry 4 120 (check_health cluster (some 4))
    terminate node.instance_id
    pause 300
    retry 6 180 (check_health cluster none)
    pure tt

  -- ForEachInstance, with a "MaxConcurrency" of 1
  unfoldable pub for_each_instance : String → List Node → Run NoneType
  for_each_instance cluster [] = pure tt
  for_each_instance cluster (node ∷ nodes) = do
    recycle_node cluster node
    for_each_instance cluster nodes

  unfoldable pub main_flow : String → Run NoneType
  main_flow cluster = do
    notify started
    retry 4 120 (check_health cluster none)
    nodes ← get_nodes cluster
    for_each_instance cluster nodes
    notify completed

  -- The "Catch" of MainFlow, then FailState.
  unfoldable pub recycle_consul_agents : String → Run NoneType
  recycle_consul_agents cluster = do
    r ← attempt (main_flow cluster)
    or_again (attempt (notify failed) >> raise (exception "AutoRecyclingFailed")) r
