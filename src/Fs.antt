-- ===== src/Fs.antt =====
-- fs/: pipes, file descriptors, the bitmaps of zones and inodes, the permissions of files, their zones
-- and bytes, block devices and directories.
pub mod Pipe
pub mod Files
pub mod Bitmap
pub mod Access
pub mod Inode
pub mod Truncate
pub mod Regular
pub mod Device
pub mod Names
pub mod Calls
pub mod Table
