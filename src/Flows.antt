-- ===== src/Flows.antt =====
-- The lambdas together: one that reads what another wrote, and the state machines of terraform/.
pub mod Group
pub mod Consul
pub mod InOut
pub mod Monitoring
pub mod Strategy
pub mod Mongo
pub mod Input
mod Tests
