-- ===== src/Control.antt =====
-- src/threevn_control: the scenarios, the acceptance run and the client of the robot.
pub mod Scenario
pub mod Acceptance
pub mod Client
pub mod Arm
