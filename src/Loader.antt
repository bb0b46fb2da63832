-- ===== src/Loader.antt =====
-- The boot loader (loader/grub_loader/).
pub mod Lheap
pub mod Fat32
