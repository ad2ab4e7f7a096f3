-- ===== src/Cad.antt =====
-- cad/threevn_cad: the checks that a part can be made. The geometry of a solid is an argument.
pub mod Printability
pub mod Profile
pub mod Fits
pub mod Masses
