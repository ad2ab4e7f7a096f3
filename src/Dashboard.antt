-- ===== src/Dashboard.antt =====
-- src/threevn_dashboard: the state of the robot, and what reports it.
pub mod RobotState
pub mod Version
pub mod Push
pub mod Payload
pub mod Metrics
pub mod Node
pub mod Http
