-- ===== src/Mlops.antt =====
-- src/threevn_mlops: the model registry, the gates before it, and the command line over both.
pub mod Gates
pub mod Registry
pub mod Cli
pub mod Drift
pub mod Serve
