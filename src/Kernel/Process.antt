-- ===== src/Kernel/Process.antt =====
-- include/linux/sched.h: the fields of `struct task_struct` that the calls of sys.c, signal.c and
-- exit.c read or write, and the task table. A task pointer is an index into `task[NR_TASKS]`.
use linux_0_11_read.Prelude.{
  ℕ, ◌+◌, ◌-◌, ◌/◌, ◌%◌, ◌^◌, List, Option, none, Bool, ◌==◌, if◌then◌else◌, neg32, get_or,
  replicate, minus_one,
}

-- `struct sigaction`
pub record Action : Type 0 where
  pub sa_handler : ℕ
  pub sa_mask : ℕ
  pub sa_flags : ℕ
  pub sa_restorer : ℕ

pub record Process : Type 0 where
  pub state : ℕ
  pub signal : ℕ
  pub sigaction : List Action
  pub blocked : ℕ
  pub exit_code : ℕ
  pub end_code : ℕ
  pub brk : ℕ
  pub start_stack : ℕ
  pub pid : ℕ
  pub father : ℕ
  pub pgrp : ℕ
  pub session : ℕ
  pub leader : ℕ
  pub uid : ℕ
  pub euid : ℕ
  pub suid : ℕ
  pub gid : ℕ
  pub egid : ℕ
  pub sgid : ℕ
  pub utime : ℕ
  pub stime : ℕ
  pub cutime : ℕ
  pub cstime : ℕ
  pub tty : ℕ
  pub umask : ℕ

abbrev pub suser : Process → Bool
suser p = p.euid == 0

abbrev pub eperm : ℕ
eperm = neg32 1

abbrev pub esrch : ℕ
esrch = neg32 3

abbrev pub enosys : ℕ
enosys = neg32 38

-- `task[NR_TASKS]`, and the index of `current`.
pub record Processes : Type 0 where
  pub task : List (Option Process)
  pub current : ℕ

abbrev pub process_at : Processes → ℕ → Option Process
process_at s i = get_or s.task i none

-- x |= 1 << k and x &= ~(1 << k)
abbrev pub set_bit : ℕ → ℕ → ℕ
set_bit x k = if x / 2 ^ k % 2 == 0 then x + 2 ^ k else x

abbrev pub clear_bit : ℕ → ℕ → ℕ
clear_bit x k = if x / 2 ^ k % 2 == 0 then x else x - 2 ^ k

abbrev pub no_action : Action
no_action = record { sa_handler = 0; sa_mask = 0; sa_flags = 0; sa_restorer = 0 }

-- INIT_TASK
abbrev pub init_task : Process
init_task = record {
  state = 0;
  signal = 0;
  sigaction = replicate 32 no_action;
  blocked = 0;
  exit_code = 0;
  end_code = 0;
  brk = 0;
  start_stack = 0;
  pid = 0;
  father = minus_one;
  pgrp = 0;
  session = 0;
  leader = 0;
  uid = 0;
  euid = 0;
  suid = 0;
  gid = 0;
  egid = 0;
  sgid = 0;
  utime = 0;
  stime = 0;
  cutime = 0;
  cstime = 0;
  tty = minus_one;
  umask = 18;
}
