-- ===== src/Data.antt =====
-- src/threevn_data: the data that models are trained on.
pub mod Dataset
pub mod Manifest
pub mod Poses
pub mod Collect
pub mod Duplicates
