-- ===== src/Fs/Access.antt =====
-- fs/namei.c, `permission`, and the calls of fs/open.c on the mode, the owner and the times of a
-- file. What `namei` finds is an argument; a call gives its result and that inode as it leaves it.
pub mod Grants
pub mod Owner
mod Tests
use Prim.Native.Nat.{bit_and}
use linux_0_11_read.Prelude.{
  ℕ, ◌+◌, ◌-◌, ◌*◌, ◌/◌, ◌%◌, ◌^◌, Option, none, some, Bool, true, false, not, ◌&&◌, ◌||◌, ◌==◌,
  if◌then◌else◌, neg32, low_bits, clear_low,
}
use linux_0_11_read.Kernel.Process.{Process, suser}

abbrev pub enoent : ℕ
enoent = neg32 2

abbrev pub eacces : ℕ
eacces = neg32 13

pub record FileInode : Type 0 where
  pub i_mode : ℕ
  pub i_uid : ℕ
  pub i_gid : ℕ
  pub i_nlinks : ℕ
  pub i_dev : ℕ
  pub i_atime : ℕ
  pub i_mtime : ℕ
  pub i_dirt : Bool

-- `(mode & mask & 0007) == mask`
abbrev pub has_bits : ℕ → ℕ → Bool
has_bits mode mask = bit_and (low_bits mode 3) mask == mask

unfoldable pub permission : Process → FileInode → ℕ → Bool
permission me inode mask =
    if not (inode.i_dev == 0) && (inode.i_nlinks == 0)
    then false
    else let mode =
        if me.euid == inode.i_uid
        then inode.i_mode / 2 ^ 6
        else if me.egid == inode.i_gid
        then inode.i_mode / 2 ^ 3
        else inode.i_mode in
      has_bits mode mask || suser me

abbrev pub set_times : FileInode → ℕ → ℕ → FileInode
set_times inode actime modtime = record inode { i_atime = actime; i_mtime = modtime; i_dirt = true }

-- `times` is the two words at the argument, if it is not NULL; `now` is CURRENT_TIME.
unfoldable pub sys_utime : Option FileInode → Option (ℕ × ℕ) → ℕ → ℕ × Option FileInode
sys_utime none times now = (enoent, none)
sys_utime (some inode) none now = (0, some (set_times inode now now))
sys_utime (some inode) (some (actime, modtime)) now = (0, some (set_times inode actime modtime))

unfoldable pub sys_access : Process → Option FileInode → ℕ → ℕ
sys_access me none mode = eacces
sys_access me (some inode) mode =
    let asked = low_bits mode 3 in
    let i_mode = low_bits inode.i_mode 9 in
    let res =
      if me.uid == inode.i_uid
      then i_mode / 2 ^ 6
      else if me.gid == inode.i_gid
      then i_mode / 2 ^ 6
      else i_mode in
    if has_bits res asked
    then 0
    else if (me.uid == 0) && ((asked % 2 == 0) || not (bit_and i_mode 0o111 == 0))
    then 0
    else eacces

unfoldable pub sys_chmod : Process → Option FileInode → ℕ → ℕ × Option FileInode
sys_chmod me none mode = (enoent, none)
sys_chmod me (some inode) mode =
    if not (me.euid == inode.i_uid) && not (suser me) then (eacces, some inode) else (
      0,
      some (record inode { i_mode = low_bits mode 12 + clear_low inode.i_mode 12; i_dirt = true }),
    )

unfoldable pub sys_chown : Process → Option FileInode → (uid gid : ℕ) → ℕ × Option FileInode
sys_chown me none uid gid = (enoent, none)
sys_chown me (some inode) uid gid =
    if not (suser me)
    then (eacces, some inode)
    else (0, some (record inode { i_uid = low_bits uid 16; i_gid = low_bits gid 8; i_dirt = true }))
