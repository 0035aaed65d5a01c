-- ===== src/Mongo/Database.antt =====
-- src/mongo_recycler/connectors/mongo.py, where Connecting has `_connect`.
pub mod Chaining
pub mod Connecting
use aws_autorecycle.Base.{
  ◌+◌, String, Bool, true, false, List, [], ◌∷◌, none, some, not, eqb, get_elem?, sub_mongo,
  if◌then◌else◌,
}
use aws_autorecycle.Exceptions.{
  Result, ok, err, NoneType, index_error, auto_reconnect, instance_state_not_found,
  mongo_request_failed,
}
use aws_autorecycle.Effect.{lift, pure, attempt, ◌>>=◌, ◌>>◌}
use aws_autorecycle.Mongo.Services.{
  Services, Run, ReplicaSetStatus, ReplicaSetConfig, connect, get_status, get_config, reconfigure,
  replace_primary,
}

pub record NodeDetails : Type 0 where
  pub node_state : String
  pub replica_set_name : String

abbrev pub states : List String
states =
    "STARTUP" ∷ "PRIMARY" ∷ "SECONDARY" ∷ "RECOVERING" ∷ "STARTUP2" ∷ "UNKNOWN" ∷ "ARBITER" ∷ "DOWN"
    ∷ "ROLLBACK" ∷ "REMOVED" ∷ []

-- Only the `KeyError` of a missing `myState` is caught, not the `IndexError` of the list.
unfoldable pub state_string_from_status : ReplicaSetStatus → Result String
state_string_from_status status = elim status.my_state [
  | none ↦ err instance_state_not_found
  | some n ↦ elim (get_elem? states n) [ none ↦ err index_error | some state ↦ ok state ]
]

unfoldable pub node_details : ReplicaSetStatus → Result NodeDetails
node_details status =
    if not (eqb status.ok_code 1)
    then err mongo_request_failed
    else elim (state_string_from_status status) [
      | ok state ↦ ok (record { node_state = state; replica_set_name = status.set_name })
      | err e ↦ err e
    ]

-- `except AutoReconnect: pass`
unfoldable pub forgive_reconnect : Result NoneType → Result NoneType
forgive_reconnect (err auto_reconnect) = ok tt
forgive_reconnect r = r

unfoldable pub same : Bool → Bool → Bool
same true b = b
same false b = not b

-- What `Mongo.__init__` keeps.
unfoldable pub cluster_name : String → String
unfolding sub_mongo
cluster_name component = sub_mongo component

-- The methods of `Mongo`.
module _ (S : Services) where
  unfoldable pub replica_set_status : String → Run S ReplicaSetStatus
  replica_set_status host = do connect S host; get_status S host

  -- What `set_chaining` does with the configuration that it read.
  unfoldable pub apply_chaining : String → Bool → ReplicaSetConfig → Run S ReplicaSetConfig
  apply_chaining host wanted config =
      if same config.chaining_allowed wanted then pure config else do
        let new : ReplicaSetConfig = record config {
          chaining_allowed = wanted;
          version = config.version + 1;
        }
        reconfigure S host new
        pure new

  unfoldable pub set_chaining : String → Bool → Run S ReplicaSetConfig
  set_chaining host wanted = do
    connect S host
    config ← get_config S host
    apply_chaining host wanted config

  unfoldable pub get_node_details : String → Run S NodeDetails
  get_node_details address = do
    connect S address
    status ← get_status S address
    lift (node_details status)

  unfoldable pub step_down : String → Run S NoneType
  step_down address = do
    connect S address
    answer ← attempt (replace_primary S address 100)
    lift (forgive_reconnect answer)
