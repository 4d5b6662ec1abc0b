-- ===== src/Kernel/Exit.antt =====
-- kernel/exit.c: sending of signals, the release of a task, and one scan of `sys_waitpid`.
pub mod Send
pub mod Kill
pub mod Children
pub mod Wait
mod Tests
use linux_0_11_read.Prelude.{
  ℕ, zero, suc, ◌+◌, ◌-◌, ◌/◌, ◌%◌, ◌^◌, List, [], ◌∷◌, Option, none, some, Bool, true, false, not,
  ◌&&◌, ◌||◌, ◌==◌, if◌then◌else◌, add32, neg32, slt, set, Kernel, Outcome, done, halted, panic,
  ◌>>◌,
}
use linux_0_11_read.Fs.Files.{einval}
use linux_0_11_read.Kernel.Sched.{nr_tasks}
use linux_0_11_read.Kernel.Process.{Process, Processes, process_at, suser, eperm, set_bit}

abbrev pub put_process : Processes → ℕ → Option Process → Processes
put_process s i p = record s { task = set s.task i p }

-- `sig<1 || sig>32`
abbrev pub is_bad_signal : ℕ → Bool
is_bad_signal sig = slt sig 1 || slt 32 sig

-- `me` is the current process. The error, or 0, and the process that the signal went to.
unfoldable pub send_sig : Process → ℕ → Option Process → Bool → ℕ × Option Process
send_sig me sig none priv = (einval, none)
send_sig me sig (some p) priv =
    if is_bad_signal sig
    then (einval, some p)
    else if priv || (me.euid == p.euid) || suser me
    then (0, some (record p { signal = set_bit p.signal (sig - 1) }))
    else (eperm, some p)

-- A loop `while (--p > &FIRST_TASK)` over the entries `n` to 1, with `retval` so far, that sends the
-- signal to those that pass the test.
unfoldable pub send_loop :
    Process → ℕ → (Option Process → Bool) → Bool → ℕ → ℕ → Processes → ℕ × Processes
send_loop me sig test priv zero retval s = (retval, s)
send_loop me sig test priv (suc n) retval s =
    let p = process_at s (suc n) in
    let (err, q) = send_sig me sig p priv in
    let t = if test p then put_process s (suc n) q else s in
    let result = if test p && not (err == 0) then err else retval in
    send_loop me sig test priv n result t

-- `*p && ...`
abbrev pub task_with : (Process → Bool) → Option Process → Bool
task_with test none = false
task_with test (some p) = test p

-- The loop for a pid of -1. Its `else` belongs to `if (err = send_sig(sig,*p,0))`: once a signal has
-- been sent, the loop for a group goes on with the entries below, and `-pid` is 1.
unfoldable pub send_all : Process → ℕ → ℕ → ℕ → Processes → ℕ × Processes
send_all me sig zero retval s = (retval, s)
send_all me sig (suc n) retval s =
    let (err, q) = send_sig me sig (process_at s (suc n)) false in
    let t = put_process s (suc n) q in
    let rest = send_all me sig n err t in
    let group = send_loop me sig (task_with (λ p. p.pgrp == 1)) false n retval t in
    if err == 0 then group else rest

-- Below -1, no branch is left.
unfoldable pub sys_kill : Process → ℕ → ℕ → Processes → ℕ × Processes
sys_kill me pid sig s =
    if pid == 0
    then send_loop me sig (task_with (λ q. q.pgrp == me.pid)) true (nr_tasks - 1) 0 s
    else if slt 0 pid
    then send_loop me sig (task_with (λ q. q.pid == pid)) false (nr_tasks - 1) 0 s
    else if pid == neg32 1
    then send_all me sig (nr_tasks - 1) 0 s
    else (0, s)

-- The loop of `kill_session`, over the entries `n` to 1.
unfoldable pub kill_session : Process → ℕ → Processes → Processes
kill_session me zero s = s
kill_session me (suc n) s = kill_session me n (elim (process_at s (suc n)) [
  | none ↦ s
  | some p ↦
      if p.session == me.session
      then put_process s (suc n) (some (record p { signal = set_bit p.signal 0 }))
      else s
])

-- Which children `sys_waitpid` of `pid` waits for.
abbrev pub is_awaited : Process → ℕ → Process → Bool
is_awaited me pid p =
    (p.father == me.pid)
    && (if slt 0 pid
        then p.pid == pid
        else if pid == 0
        then p.pgrp == me.pgrp
        else (pid == neg32 1) || (p.pgrp == neg32 pid))

abbrev pub task_zombie : ℕ
task_zombie = 3

abbrev pub task_stopped : ℕ
task_stopped = 4

-- How the scan ends: a stopped child, a zombie with its exit code, or none, with `flag`.
pub data Scan : Type 0 where
  stopped_at : ℕ → Scan
  zombie_at : ℕ → Scan
  scanned : Bool → Scan

-- `for(p = &LAST_TASK ; p > &FIRST_TASK ; --p)` from entry `n` down; `options & WUNTRACED` is
-- `untraced`.
unfoldable pub wait_loop : Process → ℕ → Bool → Processes → ℕ → Bool → Scan
wait_loop me pid untraced s zero flag = scanned flag
wait_loop me pid untraced s (suc n) flag =
    let rest = wait_loop me pid untraced s n flag in
    let seen = wait_loop me pid untraced s n true in
    elim (process_at s (suc n)) [
      | none ↦ rest
      | some p ↦
          if (s.current == suc n) || not (is_awaited me pid p)
          then rest
          else if p.state == task_stopped
          then if untraced then stopped_at (suc n) else rest
          else if p.state == task_zombie
          then zombie_at (suc n)
          else seen
    ]

abbrev pub echild : ℕ
echild = neg32 10

-- The result of the call and the word put at `stat_addr`, or a sleep until a signal comes.
pub data Waited : Type 0 where
  returned : ℕ → Option ℕ → Waited
  sleeping : Waited

abbrev pub add_times : Process → Process → Process
add_times p me = record me { cutime = add32 me.cutime p.utime; cstime = add32 me.cstime p.stime }

-- `free_page` of the page of the task that an entry had, and `schedule`, which runs the others.
module _ (free_page : ℕ → Kernel Processes (Unit {0}))
    (schedule : Kernel Processes (Unit {0})) where
  -- `release` of the task that entry `i` has.
  unfoldable pub release : ℕ → Kernel Processes (Unit {0})
  release i s =
      if (i == 0) || not (slt i nr_tasks)
      then halted panic s
      else (free_page i >> schedule) (put_process s i none)

  -- The loop of `tell_father`, on `n` entries from `i` on.
  unfoldable pub tell_father : ℕ → ℕ → ℕ → Kernel Processes (Unit {0})
  tell_father pid zero i s = release s.current s
  tell_father pid (suc n) i s =
      let rest = tell_father pid n (i + 1) s in
      if pid == 0 then release s.current s else elim (process_at s i) [
        | none ↦ rest
        | some p ↦
            if p.pid == pid
            then done tt (put_process s i (some (record p { signal = set_bit p.signal 16 })))
            else rest
      ]

  -- `options & WNOHANG` is `no_hang`. A process that sleeps is interruptible.
  unfoldable pub sys_waitpid : Process → ℕ → Bool → Bool → Kernel Processes Waited
  sys_waitpid me pid untraced no_hang s = elim (wait_loop me pid untraced s (nr_tasks - 1) false) [
    | stopped_at i ↦ elim (process_at s i) [
      | none ↦ halted panic s
      | some p ↦ done (returned p.pid (some 127)) s
    ]
    | zombie_at i ↦ elim (process_at s i) [
      | none ↦ halted panic s
      | some p ↦
          let t = put_process s s.current (some (add_times p me)) in
          (release i >> done (returned p.pid (some p.exit_code))) t
    ]
    | scanned true ↦
        if no_hang
        then done (returned 0 none) s
        else done sleeping (put_process s s.current (some (record me { state = 1 })))
    | scanned false ↦ done (returned echild none) s
  ]
