-- ===== src/Drivers.antt =====
-- The drivers that run as tasks (module/driver/).
pub mod Console
pub mod Keyboard
