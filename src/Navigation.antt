-- ===== src/Navigation.antt =====
-- src/threevn_navigation: where the base is.
pub mod Fusion
pub mod Odometry
