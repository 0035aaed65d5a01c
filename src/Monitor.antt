-- ===== src/Monitor.antt =====
-- src/monitor_autorecycle/main.py: tells whether all instances of a component's group were replaced.
pub mod Services
pub mod Checks
pub mod Handler
mod Tests
