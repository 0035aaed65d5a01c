-- ===== src/Consul.antt =====
-- src/get_consul_nodes, src/check_consul_health and src/terminate_consul_instance: the steps of the
-- recycling of a Consul cluster.
pub mod Services
pub mod Certificate
pub mod Leader
pub mod Nodes
pub mod Health
pub mod Terminate
pub mod Trust
mod Tests
