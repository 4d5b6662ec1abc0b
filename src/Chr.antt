-- ===== src/Chr.antt =====
-- kernel/chr_drv/: the console and the queues of the terminals.
pub mod Console
pub mod Terminal
