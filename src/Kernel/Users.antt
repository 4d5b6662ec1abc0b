-- ===== src/Kernel/Users.antt =====
-- kernel/sys.c: the calls on the ids, the times and the data segment of the current process. An
-- `int` is its bit pattern, an id an unsigned short. A call gives its result and the process; what
-- it puts in the user's memory comes in a list of words.
pub mod Ids
mod Tests
use linux_0_11_read.Prelude.{
  ℕ, zero, suc, ◌+◌, ◌-◌, ◌/◌, ◌%◌, ◌^◌, List, [], ◌∷◌, Option, none, some, Bool, true, false, not,
  ◌&&◌, ◌||◌, ◌==◌, leb, ltb, if◌then◌else◌, add32, sub32, minus_one, sdiv, slt, low_bits, set,
}
use linux_0_11_read.Kernel.Sched.{hz}
use linux_0_11_read.Kernel.Process.{Process, Processes, process_at, suser, eperm, esrch, enosys}

-- sys_ftime, sys_break, sys_ptrace, sys_stty, sys_gtty, sys_rename and sys_prof
abbrev pub sys_ftime : ℕ
sys_ftime = enosys

-- sys_acct, sys_phys, sys_lock, sys_mpx and sys_ulimit
abbrev pub sys_acct : ℕ
sys_acct = enosys

-- The second half of `sys_setregid`, on the process that the first half leaves.
abbrev pub set_egid : ℕ → Process → ℕ × Process
set_egid egid p =
    if not (slt 0 egid)
    then (0, p)
    else if (p.gid == egid) || (p.egid == egid) || (p.sgid == egid) || suser p
    then (0, record p { egid = egid % 2 ^ 16 })
    else (eperm, p)

unfoldable pub sys_setregid : ℕ → ℕ → Process → ℕ × Process
sys_setregid rgid egid p =
    if not (slt 0 rgid)
    then set_egid egid p
    else if (p.gid == rgid) || suser p
    then set_egid egid (record p { gid = rgid % 2 ^ 16 })
    else (eperm, p)

unfoldable pub sys_setgid : ℕ → Process → ℕ × Process
sys_setgid gid = sys_setregid gid gid

abbrev pub set_euid : ℕ → ℕ → Process → ℕ × Process
set_euid old_ruid euid p =
    if not (slt 0 euid)
    then (0, p)
    else if (old_ruid == euid) || (p.euid == euid) || suser p
    then (0, record p { euid = euid % 2 ^ 16 })
    else (eperm, record p { uid = old_ruid % 2 ^ 16 })

unfoldable pub sys_setreuid : ℕ → ℕ → Process → ℕ × Process
sys_setreuid ruid euid p =
    let old_ruid = p.uid in
    if not (slt 0 ruid)
    then set_euid old_ruid euid p
    else if (p.euid == ruid) || (old_ruid == ruid) || suser p
    then set_euid old_ruid euid (record p { uid = ruid % 2 ^ 16 })
    else (eperm, p)

unfoldable pub sys_setuid : ℕ → Process → ℕ × Process
sys_setuid uid = sys_setreuid uid uid

-- `jiffies` and `startup_time`
pub record Clock : Type 0 where
  pub jiffies : ℕ
  pub startup_time : ℕ

abbrev pub current_time : Clock → ℕ
current_time c = add32 c.startup_time (sdiv c.jiffies hz)

unfoldable pub sys_time : ℕ → Clock → ℕ × List ℕ
sys_time tloc c = (current_time c, if tloc == 0 then [] else current_time c ∷ [])

-- `seconds` is the word at `tptr`.
unfoldable pub sys_stime : ℕ → Process → Clock → ℕ × Clock
sys_stime seconds p c =
    if not (suser p)
    then (eperm, c)
    else (0, record c { startup_time = sub32 seconds (sdiv c.jiffies hz) })

unfoldable pub sys_times : ℕ → Process → Clock → ℕ × List ℕ
sys_times tbuf p c =
    (c.jiffies, if tbuf == 0 then [] else p.utime ∷ p.stime ∷ p.cutime ∷ p.cstime ∷ [])

unfoldable pub sys_brk : ℕ → Process → ℕ × Process
sys_brk end_data_seg p =
    if leb p.end_code end_data_seg && ltb end_data_seg (sub32 p.start_stack 16384)
    then (end_data_seg, record p { brk = end_data_seg })
    else (p.brk, p)

-- The loop of `sys_setpgid`, with the rounds that are left, on the process at `i`.
unfoldable pub find_pid : ℕ → ℕ → ℕ → Processes → Option (ℕ × Process)
find_pid zero i pid s = none
find_pid (suc n) i pid s =
    let rest = find_pid n (i + 1) pid s in
    elim (process_at s i) [ none ↦ rest | some p ↦ if p.pid == pid then some (i, p) else rest ]

-- `me` is the current process.
unfoldable pub sys_setpgid : ℕ → ℕ → Process → Processes → ℕ × Processes
sys_setpgid pid pgid me s =
    let pid = if pid == 0 then me.pid else pid in
    let pgid = if pgid == 0 then me.pid else pgid in
    elim (find_pid 64 0 pid s) [
      | none ↦ (esrch, s)
      | some (i, p) ↦
          if not (p.leader == 0)
          then (eperm, s)
          else if not (p.session == me.session)
          then (eperm, s)
          else (0, record s { task = set s.task i (some (record p { pgrp = pgid })) })
    ]

unfoldable pub sys_getpgrp : Process → ℕ
sys_getpgrp p = p.pgrp

unfoldable pub sys_setsid : Process → ℕ × Process
sys_setsid p =
    if not (p.leader == 0) && not (suser p)
    then (eperm, p)
    else (p.pid, record p { leader = 1; session = p.pid; pgrp = p.pid; tty = minus_one })

unfoldable pub sys_umask : ℕ → Process → ℕ × Process
sys_umask mask p = (p.umask, record p { umask = low_bits mask 9 })
