-- ===== src/Ui.antt =====
-- src/ui_actions.c and include/ui_actions.h, a child for each part of the file.
pub mod Device
pub mod Ramp
pub mod Strobe
pub mod Actions
pub mod Config
pub mod Init
pub mod Dark
pub mod Sweep
pub mod Memory
pub mod Settings
pub mod Steps
pub mod Stuck
pub mod Timers
pub mod Flash
