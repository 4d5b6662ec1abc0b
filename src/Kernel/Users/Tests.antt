-- ===== src/Kernel/Users/Tests.antt =====
-- Runs of the calls on ids, and the theorem for a set-user-id program.
use linux_0_11_read.Prelude.{◌≢◌, ◌≡◌, refl, arith}
use linux_0_11_read.Kernel.Process.{Process, init_task, eperm}
use linux_0_11_read.Kernel.Users.{sys_setreuid, sys_brk, sys_umask}
use linux_0_11_read.Kernel.Users.Ids.{
  HasIds, none_yet, reuid, HasOwnIds, Calls-HasOwnIds, IsOneOf, sys_setreuid-IsOneOf,
}

abbrev user_7_as_8 : Process
user_7_as_8 = record init_task {
  end_code = 4096;
  brk = 8192;
  start_stack = 0x100000;
  uid = 7;
  euid = 8;
  gid = 3;
  egid = 4;
  sgid = 4;
}

user_7-HasIds : HasIds user_7_as_8
user_7-HasIds = record {
  uid = omega arith;
  euid = omega arith;
  gid = omega arith;
  egid = omega arith;
  sgid = omega arith;
}

Calls-HasOwnIds_example : HasOwnIds user_7_as_8 (sys_setreuid 8 7 user_7_as_8).1
Calls-HasOwnIds_example =
    Calls-HasOwnIds user_7-HasIds (omega arith) (omega arith) (reuid none_yet 8 7)

swapped : (sys_setreuid 8 7 user_7_as_8).1.uid ≡ 8
unfolding sys_setreuid
swapped = refl

refused : sys_setreuid 8 9 user_7_as_8 ≡ (eperm, user_7_as_8)
unfolding sys_setreuid
refused = refl

grown : (sys_brk 12288 user_7_as_8).0 ≡ 12288
unfolding sys_brk
grown = refl

masked : (sys_umask 511 user_7_as_8).0 ≡ 18
unfolding sys_umask
masked = refl

sys_setreuid-IsOneOf_example :
    let (result, q) = sys_setreuid 8 9 user_7_as_8 in
    IsOneOf q.uid 7 8 × IsOneOf q.euid 7 8 × (result ≢ 0 → (result ≡ eperm) × (q ≡ user_7_as_8))
sys_setreuid-IsOneOf_example = sys_setreuid-IsOneOf 8 9 user_7_as_8 user_7-HasIds (omega arith)
