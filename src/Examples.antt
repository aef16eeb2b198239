-- ===== src/Examples.antt =====
-- A lamp in a concrete state, and every theorem at concrete inputs.
pub mod Lamp
mod Engine
mod Input
mod Power
mod Light
mod Guard
mod Controls
mod Drivers
mod Whole
mod Modes
