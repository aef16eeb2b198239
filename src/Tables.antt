-- ===== src/Tables.antt =====
-- The duty tables of include/ that scripts/generate_ramp_table.py writes, as lists.
pub mod Ramp
pub mod Sine
pub mod Shape
