-- ===== src/Stdlib.antt =====
-- Functions of the standard library (cty/function/stdlib).
pub mod Chunklist
pub mod Examples
