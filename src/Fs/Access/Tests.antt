-- ===== src/Fs/Access/Tests.antt =====
-- Runs of the calls on permissions, and the theorems at a file of the user 5.
use linux_0_11_read.Prelude.{
  ◌/◌, ◌^◌, ◌≡◌, refl, some, none, true, false, not, ◌&&◌, ◌||◌, ◌==◌, arith,
}
use linux_0_11_read.Kernel.Process.{Process, init_task, suser}
use linux_0_11_read.Fs.Access.{
  FileInode, eacces, set_times, permission, sys_utime, sys_access, sys_chmod,
}
use linux_0_11_read.Fs.Access.Grants.{covers, class_shift, permission-covers}
use linux_0_11_read.Fs.Access.Owner.{start, utime, chmod, HasSameRights, Calls-HasSameRights}

-- rw-r-----
abbrev letter : FileInode
letter = record {
  i_mode = 0o100640;
  i_uid = 5;
  i_gid = 6;
  i_nlinks = 1;
  i_dev = 0x301;
  i_atime = 0;
  i_mtime = 0;
  i_dirt = false;
}

abbrev member : Process
member = record init_task { uid = 7; euid = 7; gid = 6; egid = 6 }

permission-covers_example : permission member letter 2 ≡ (
    not (not (letter.i_dev == 0) && (letter.i_nlinks == 0))
    && (covers (letter.i_mode / 2 ^ class_shift member letter) 2 || suser member))
permission-covers_example = permission-covers member letter 2 (omega arith)

group_reads : permission member letter 4 ≡ true
unfolding permission
group_reads = refl

group_does_not_write : permission member letter 2 ≡ false
unfolding permission
group_does_not_write = refl

-- `sys_access` reads the bits of the owner for the group.
access_of_group : sys_access member (some letter) 2 ≡ 0
unfolding sys_access
access_of_group = refl

chmod_of_member : sys_chmod member (some letter) 0o777 ≡ (eacces, some letter)
unfolding sys_chmod
chmod_of_member = refl

chmod_of_owner :
    sys_chmod (record member { euid = 5 }) (some letter) 0o777
    ≡ (0, some (record letter { i_mode = 0o100777; i_dirt = true }))
unfolding sys_chmod
chmod_of_owner = refl

touched : sys_utime (some letter) none 9 ≡ (0, some (set_times letter 9 9))
unfolding sys_utime
touched = refl

Calls-HasSameRights_example : HasSameRights letter (set_times letter 9 9)
Calls-HasSameRights_example = Calls-HasSameRights (
    utime 0 9 none
      (chmod member eacces 0o777 start (record { not_root = omega arith; not_owner = omega arith })
        chmod_of_member)
      touched)
