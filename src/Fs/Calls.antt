-- ===== src/Fs/Calls.antt =====
-- fs/namei.c: the calls on paths, over the table of inodes, the directories and the permissions.
pub mod Action
pub mod Interface
pub mod Paths
pub mod Open
pub mod Links
pub mod Moves
pub mod Laws
pub mod Balance
pub mod Opening
pub mod Linking
pub mod Removal
pub mod Rounds
pub mod Balanced
mod Tests
