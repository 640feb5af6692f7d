-- ===== src/Validation.antt =====
-- aqr/validation: cross-validation splits and the overfitting statistics built on them.
pub mod Cpcv
pub mod Pbo
pub mod Sharpe
pub mod Bootstrap
pub mod Combinations
