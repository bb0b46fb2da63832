-- ===== src/Kernel.antt =====
-- The kernel (kernel/): its state, and a module for each component.
pub mod State
pub mod Samples
pub mod Ready
pub mod Scheduler
pub mod Signal
pub mod Pmm
pub mod Kheap
pub mod Paging
pub mod Tasks
pub mod Threads
pub mod Mailbox
pub mod Strings
pub mod Tostring
pub mod Printk
pub mod Rpc
pub mod Syscall
