-- ===== src/Convert.antt =====
-- cty/convert: type conversion and unification.
pub mod Compare
pub mod Plans
pub mod Conversions
pub mod Sorting
pub mod Preference
mod Examples
