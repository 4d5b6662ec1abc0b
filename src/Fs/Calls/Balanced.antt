-- ===== src/Fs/Calls/Balanced.antt =====
-- The calls of fs/namei.c as a whole: what is in use before is in use afterwards.
use linux_0_11_read.Prelude.{ℕ, List, Bool, true, Kernel}
use linux_0_11_read.Fs.Calls.Interface.{Token, Files}
use linux_0_11_read.Fs.Calls.Open.{sys_mknod, sys_mkdir}
use linux_0_11_read.Fs.Calls.Links.{sys_rmdir, sys_unlink, sys_link}
use linux_0_11_read.Fs.Calls.Moves.{Scope, Moves}
use linux_0_11_read.Fs.Calls.Laws.{Laws}
use linux_0_11_read.Fs.Calls.Removal.{is_inode, inodes_only}

pub data Call : Type 0 where
  mknod : List ℕ → ℕ → ℕ → Call
  mkdir : List ℕ → ℕ → Call
  rmdir : List ℕ → Call
  unlink : List ℕ → Call
  link : List ℕ → List ℕ → Call

-- What the theorem counts: inodes and buffers, but for sys_rmdir inodes only.
abbrev pub counts : Call → Token → Bool
counts (rmdir path) x = is_inode x
counts _ x = true

-- Everything counts.
abbrev pub any : Scope
any = record { counts = λ x. true }

abbrev scope_of : Call → Scope
scope_of (rmdir path) = inodes_only
scope_of _ = any

module _ {S : Type 0} (ops : Files S) (now : ℕ) where
  unfoldable pub perform : Call → Kernel S ℕ
  perform (mknod path mode dev) = sys_mknod ops now path mode dev
  perform (mkdir path mode) = sys_mkdir ops now path mode
  perform (rmdir path) = sys_rmdir ops now path
  perform (unlink path) = sys_unlink ops now path
  perform (link old new) = sys_link ops now old new
