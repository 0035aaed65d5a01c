-- ===== src/Invoke.antt =====
-- src/autorecycle_invoke_stepfunctions: a change to a group starts the state machine that recycles it.
pub mod Services
pub mod Component
pub mod Tags
pub mod Handler
mod Tests
