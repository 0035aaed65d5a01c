-- ===== src/Mongo.antt =====
-- src/mongo_recycler: one invocation recycles one node of a MongoDB replica set.
pub mod Models
pub mod Services
pub mod Poll
pub mod Aws
pub mod Database
pub mod Decision
pub mod PreStepChecks
pub mod Health
pub mod Execute
pub mod Step
pub mod Protocol
mod Tests
