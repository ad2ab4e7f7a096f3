-- ===== src/Perception.antt =====
-- src/threevn_perception: finding the target in an image.
pub mod Flood
pub mod Detector
pub mod Image
pub mod Target
