-- ===== src/Kernel/Exit/Tests.antt =====
-- Runs of the calls of exit.c, and the theorems for a father and two children.
use linux_0_11_read.Prelude.{ℕ, ◌≡◌, refl, ◌∷◌, Kernel, some, none, false, replicate, done, neg32}
use linux_0_11_read.Kernel.Process.{Process, Processes, process_at, init_task, eperm}
use linux_0_11_read.Kernel.Exit.{
  send_sig, send_loop, send_all, sys_kill, kill_session, release, tell_father, wait_loop, returned,
  sleeping, sys_waitpid, put_process,
}
use linux_0_11_read.Kernel.Exit.Send.{Sent}
use linux_0_11_read.Kernel.Exit.Kill.{is_target, sys_kill-Sent}
use linux_0_11_read.Kernel.Exit.Wait.{Answer, sys_waitpid-Answer}

-- User 7 has pid 5.
abbrev father : Process
father = record init_task { pid = 5; father = 1; pgrp = 5; session = 5; uid = 7; euid = 7 }

abbrev running_child : Process
running_child = record father { pid = 6; father = 5 }

-- A zombie of another user.
abbrev zombie_child : Process
zombie_child = record father {
  pid = 7;
  father = 5;
  state = 3;
  uid = 8;
  euid = 8;
  exit_code = 256;
  utime = 3;
}

abbrev family : Processes
family = record {
  task = some init_task ∷ some father ∷ some running_child ∷ some zombie_child ∷ replicate 60 none;
  current = 1;
}

sys_kill-Sent_example :
    Sent father 15 false
      (is_target father 6 15 family)
      63
      0
      family
      (sys_kill father 6 15 family).0
      (sys_kill father 6 15 family).1
sys_kill-Sent_example = sys_kill-Sent father 6 15 family refl

got_term :
    sys_kill father 6 15 family
    ≡ (0, put_process family 2 (some (record running_child { signal = 16384 })))
unfolding sys_kill send_loop send_sig
got_term = refl

not_allowed : sys_kill father 7 15 family ≡ (eperm, family)
unfolding sys_kill send_loop send_sig
not_allowed = refl

-- A page map that takes every page, and no other process that runs.
abbrev free_any : ℕ → Kernel Processes (Unit {0})
free_any i s = done tt s

abbrev at_once : Kernel Processes (Unit {0})
at_once s = done tt s

sys_waitpid-Answer_example :
    Answer free_any at_once father
      (neg32 1)
      false
      false
      family
      (sys_waitpid free_any at_once father (neg32 1) false false family)
sys_waitpid-Answer_example =
    sys_waitpid-Answer free_any at_once father (neg32 1) false false family refl

zombie_reaped :
    (t : Processes) × (sys_waitpid free_any at_once father (neg32 1) false false family
      ≡ done (returned 7 (some 256)) t)
    × (process_at t 3 ≡ none)
unfolding sys_waitpid wait_loop release
zombie_reaped = (_, refl, refl)

child_awaited :
    (t : Processes) × (sys_waitpid free_any at_once father 6 false false family ≡ done sleeping t)
unfolding sys_waitpid wait_loop
child_awaited = (_, refl)

-- A child that is stopped does not count without WUNTRACED: the call fails.
stopped_is_no_child :
    sys_waitpid free_any at_once father 6 false false
      (put_process family 2 (some (record running_child { state = 4 })))
    ≡ done
        (returned (neg32 10) none)
        (put_process family 2 (some (record running_child { state = 4 })))
unfolding sys_waitpid wait_loop
stopped_is_no_child = refl

told :
    tell_father free_any at_once 5 64 0 family
    ≡ done tt (put_process family 1 (some (record father { signal = 65536 })))
unfolding tell_father
told = refl

hung_up : process_at (kill_session father 63 family) 2 ≡ some (record running_child { signal = 1 })
unfolding kill_session
hung_up = refl

-- The zombie of the other user is passed over with an error, the own child gets the signal, and the
-- father does not, as a signal has been sent.
not_all_killed : sys_kill father (neg32 1) 15 family ≡ (
  eperm,
  put_process
      (put_process family 3 (some zombie_child))
      2
      (some (record running_child { signal = 16384 })),
)
unfolding sys_kill send_all send_loop send_sig
not_all_killed = refl

-- No process of the group 5 gets the signal.
group_not_killed : sys_kill father (neg32 5) 15 family ≡ (0, family)
unfolding sys_kill
group_not_killed = refl

no_children :
    sys_waitpid free_any at_once running_child (neg32 1) false false family
    ≡ done (returned (neg32 10) none) family
unfolding sys_waitpid wait_loop
no_children = refl
