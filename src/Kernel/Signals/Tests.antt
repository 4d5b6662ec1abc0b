-- ===== src/Kernel/Signals/Tests.antt =====
-- Runs of the signal calls, and the theorem for a process that tries to keep SIGKILL.
use linux_0_11_read.Prelude.{◌-◌, ◌≡◌, refl, [], ◌∷◌, done, halted, exited, minus_one}
use linux_0_11_read.Kernel.Process.{Action, Process, init_task}
use linux_0_11_read.Kernel.Signals.{
  sys_sgetmask, sys_ssetmask, sys_signal, sys_sigaction, Frame, do_signal, sigkill,
}
use linux_0_11_read.Kernel.Signals.Deadly.{born, masks, acts, do_signal-exited}

abbrev young : Process
young = record init_task { pid = 5; father = 1; uid = 1; euid = 1 }

abbrev frame : Frame
frame = record { eax = 1; ecx = 2; edx = 3; eip = 4; eflags = 5; esp = 1000 }

-- A handler at 7 for SIGUSR1, during which every signal is blocked.
abbrev block_all : Action
block_all = record { sa_handler = 7; sa_mask = minus_one; sa_flags = 0; sa_restorer = 9 }

do_signal-exited_example :
    do_signal sigkill frame (sys_sigaction 10 block_all 0 (sys_ssetmask minus_one young).1).1
    ≡ halted exited (sys_sigaction 10 block_all 0 (sys_ssetmask minus_one young).1).1
do_signal-exited_example =
    do_signal-exited {p = young} frame refl (acts (masks born minus_one) 10 block_all 0)

handled :
    (q : Process) × (do_signal 10 frame (sys_sigaction 10 block_all 0 young).1
      ≡ done (record frame { eip = 7; esp = 968 }, 9 ∷ 10 ∷ 0 ∷ 1 ∷ 2 ∷ 3 ∷ 5 ∷ 4 ∷ []) q)
unfolding do_signal sys_sigaction
handled = (_, refl)

kill_is_fixed : sys_signal 9 1 0 young ≡ (minus_one, young)
unfolding sys_signal
kill_is_fixed = refl

unblocked : sys_sgetmask (sys_ssetmask minus_one young).1 ≡ minus_one - 256
unfolding sys_sgetmask sys_ssetmask
unblocked = refl
