-- ===== src/ScaleAsg.antt =====
-- src/autorecycle_scale_asg: one invocation makes one move in the recycling of the groups of a
-- component. `logger.py`, `aws.py` and `models.py` hold nothing that the other files use but logging.
pub mod Event
pub mod Schema
pub mod Services
pub mod Autoscaling
pub mod NextAction
pub mod Handler
mod Tests
