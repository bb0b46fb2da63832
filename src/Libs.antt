-- ===== src/Libs.antt =====
-- The libraries of the modules.
pub mod Fifo
pub mod Malloc
