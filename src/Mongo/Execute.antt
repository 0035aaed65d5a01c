-- ===== src/Mongo/Execute.antt =====
-- src/mongo_recycler/process/execute.py
pub mod Order
use aws_autorecycle.Base.{String, true, false}
use aws_autorecycle.Exceptions.{NoneType}
use aws_autorecycle.Effect.{lift, pure, ◌>>=◌, ◌>>◌}
use aws_autorecycle.Mongo.Models.{
  Instance, Decision, done, recycle_secondary, step_down_and_recycle_primary,
}
use aws_autorecycle.Mongo.Services.{Services, Run}
use aws_autorecycle.Mongo.Aws.{get_mongo_db_instances, recycle_instance}
use aws_autorecycle.Mongo.Database.{set_chaining, step_down}
use aws_autorecycle.Mongo.Health.{connection_string, wait_until_cluster_healthy}

module _ (S : Services) (component : String) where
  -- `if decision.action == STEP_DOWN_AND_RECYCLE_PRIMARY:` and its body
  step_down_first : Decision → Run S NoneType
  step_down_first (step_down_and_recycle_primary i) = do
    step_down S i.ip_address
    wait_until_cluster_healthy S component
  step_down_first _ = pure tt

  -- What follows `set_chaining(connection_string, False)`.
  recycle : Decision → Instance → Run S NoneType
  unfolding step_down_first
  recycle decision i = do
    step_down_first decision
    recycle_instance S i
    wait_until_cluster_healthy S component

  -- What follows the connection string: the test on `DONE`.
  act : Decision → String → Run S NoneType
  unfolding recycle
  act done host = do set_chaining S host true; pure tt
  act (recycle_secondary i) host = do set_chaining S host false; recycle (recycle_secondary i) i
  act (step_down_and_recycle_primary i) host = do
    set_chaining S host false
    recycle (step_down_and_recycle_primary i) i

  unfoldable pub execute_action : Decision → Run S NoneType
  unfolding act
  execute_action decision = do
    instances ← get_mongo_db_instances S component
    host ← lift (connection_string instances)
    act decision host
