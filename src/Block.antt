-- ===== src/Block.antt =====
-- kernel/blk_drv/: the queues of requests to block devices.
pub mod Requests
