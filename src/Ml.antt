-- ===== src/Ml.antt =====
-- src/threevn_ml: the features of a blob, and the predictors over them.
pub mod Features
pub mod Train
pub mod Ridge
