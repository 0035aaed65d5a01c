-- ===== src/Mongo/Protocol.antt =====
-- The order in which one invocation may call the services, as an automaton over its calls. It is
-- written without the code: a node is terminated once at most, with chaining off, and not while the
-- set is without a healthy status since its primary stepped down.
pub mod Polling
pub mod Connectors
pub mod Recycling
use aws_autorecycle.Base.{◌≡◌, String, Bool, true, false, Option, none, some}
use aws_autorecycle.Exceptions.{Result, ok, err, NoneType}
use aws_autorecycle.Mongo.Models.{Decision, done, recycle_secondary, step_down_and_recycle_primary}
use aws_autorecycle.Mongo.Services.{
  Call, ReplicaSetStatus, ReplicaSetConfig, terminated, put_item, got_status, got_config,
  reconfigured, stepped_down,
}
use aws_autorecycle.Mongo.Health.{assert_replica_set_healthy}

pub data Phase : Type 0 where
  -- Nothing was changed, and the setting of chaining was not read.
  unknown : Phase
  -- The setting of chaining is known.
  chained : Bool → Phase
  -- The primary at this address was asked to step down, with no healthy status since.
  stepping : String → Phase
  -- The same, with a healthy status since.
  stepped : String → Phase
  -- The node was terminated, after a step-down or without one, with no healthy status since.
  gone : Option String → String → Phase
  -- The same, with a healthy status since.
  recovered : Option String → String → Phase

abbrev pub on_healthy : Phase → Phase
on_healthy (stepping host) = stepped host
on_healthy (gone stepped_host ident) = recovered stepped_host ident
on_healthy p = p

abbrev pub on_status : Phase → Result ReplicaSetStatus → Phase
on_status p (err e) = p
on_status p (ok status) = elim (assert_replica_set_healthy status) [
  | ok _ ↦ on_healthy p
  | err _ ↦ p
]

abbrev pub on_config : Phase → Result ReplicaSetConfig → Phase
on_config unknown (ok config) = chained config.chaining_allowed
on_config p _ = p

abbrev pub on_reconfigure : Phase → ReplicaSetConfig → Result NoneType → Option Phase
on_reconfigure (chained b) config (ok _) = some (chained config.chaining_allowed)
on_reconfigure (chained b) config (err _) = some unknown
on_reconfigure _ _ _ = none

abbrev pub on_step_down : Phase → String → Option Phase
on_step_down (chained false) host = some (stepping host)
on_step_down _ host = none

abbrev pub on_terminate : Phase → String → Option Phase
on_terminate (chained false) ident = some (gone none ident)
on_terminate (stepped host) ident = some (gone (some host) ident)
on_terminate _ ident = none

-- Calls that only read, and pauses, are allowed everywhere. A step does not record its start: the
-- handler does that before it.
abbrev pub allowed : Phase → Call → Option Phase
allowed p (terminated ident) = on_terminate p ident
allowed p (put_item name expiry) = none
allowed p (got_status host r) = some (on_status p r)
allowed p (got_config host r) = some (on_config p r)
allowed p (reconfigured host config r) = on_reconfigure p config r
allowed p (stepped_down host seconds r) = on_step_down p host
allowed p _ = some p

-- Where a step that returned this decision must have come to.
abbrev pub Completes : Decision → Phase → Type 0
Completes done q = q ≡ chained true
Completes (recycle_secondary i) q = q ≡ recovered none i.instance_id
Completes (step_down_and_recycle_primary i) q = q ≡ recovered (some i.ip_address) i.instance_id

-- What holds of the last phase if the run returned; nothing, if it raised.
abbrev pub Returning : {A : Type 0} → (A → Phase → Type 0) → Result A → Phase → Type 0
Returning P (ok a) q = P a q
Returning P (err e) q = Unit
