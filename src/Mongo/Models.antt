-- ===== src/Mongo/Models.antt =====
-- src/mongo_recycler/models: the nodes of a replica set and the decisions about them.
use aws_autorecycle.Base.{String, List, Option, none, some, ◌==◌, select}

pub record Instance : Type 0 where
  pub instance_id : String
  pub image_id : String
  pub ip_address : String
  pub mongo_state : String
  pub replica_set_name : String

unfoldable pub find_instances : List Instance → String → List Instance
find_instances instances mongo_state = select (λ i. i.mongo_state == mongo_state) instances

-- A `Decision` is made by three functions only, `done`, `recycle_secondary` and
-- `step_down_and_recycle_primary`, and each sets its own action and instance.
pub data Decision : Type 0 where
  done : Decision
  recycle_secondary step_down_and_recycle_primary : Instance → Decision

-- `decision.action`
abbrev pub action : Decision → String
action done = "DONE"
action (recycle_secondary i) = "RECYCLE_SECONDARY"
action (step_down_and_recycle_primary i) = "STEP_DOWN_AND_RECYCLE_PRIMARY"

-- `decision.instance`
abbrev pub instance_of : Decision → Option Instance
instance_of done = none
instance_of (recycle_secondary i) = some i
instance_of (step_down_and_recycle_primary i) = some i
