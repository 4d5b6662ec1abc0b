-- ===== src/Kernel/Signals.antt =====
-- kernel/signal.c: the masks and actions of the current process, and the call of a handler. The
-- pages of the user's stack are taken to be there, as `verify_area` sees to.
pub mod Deadly
mod Tests
use Prim.Native.Nat.{bit_or}
use linux_0_11_read.Prelude.{
  ℕ, zero, suc, ◌+◌, ◌-◌, ◌*◌, ◌/◌, ◌%◌, ◌^◌, List, [], ◌∷◌, ◌++◌, Option, none, some, Bool, true,
  false, not, ◌&&◌, ◌||◌, ◌==◌, if◌then◌else◌, sub32, minus_one, slt, set, get_or, Kernel, Outcome,
  done, halted, exited,
}
use linux_0_11_read.Kernel.Process.{Action, no_action, Process, set_bit, clear_bit}

abbrev pub sigkill : ℕ
sigkill = 9

abbrev pub sigchld : ℕ
sigchld = 17

-- `current->sigaction[k]`
abbrev pub action_at : Process → ℕ → Action
action_at p k = get_or p.sigaction k no_action

abbrev pub set_action : Process → ℕ → Action → Process
set_action p k a = record p { sigaction = set p.sigaction k a }

-- SA_ONESHOT | SA_NOMASK, and the tests for each
abbrev pub oneshot_nomask : ℕ
oneshot_nomask = 2 ^ 31 + 2 ^ 30

abbrev pub is_oneshot : Action → Bool
is_oneshot a = a.sa_flags / 2 ^ 31 % 2 == 1

abbrev pub is_nomask : Action → Bool
is_nomask a = a.sa_flags / 2 ^ 30 % 2 == 1

unfoldable pub sys_sgetmask : Process → ℕ
sys_sgetmask p = p.blocked

unfoldable pub sys_ssetmask : ℕ → Process → ℕ × Process
sys_ssetmask newmask p = (p.blocked, record p { blocked = clear_bit newmask (sigkill - 1) })

-- `signum<1 || signum>32 || signum==SIGKILL`
abbrev pub is_fixed : ℕ → Bool
is_fixed signum = slt signum 1 || slt 32 signum || (signum == sigkill)

unfoldable pub sys_signal : ℕ → ℕ → ℕ → Process → ℕ × Process
sys_signal signum handler restorer p = if is_fixed signum then (minus_one, p) else (
  (action_at p (signum - 1)).sa_handler,
  set_action p (signum - 1) (record {
    sa_handler = handler;
    sa_mask = 0;
    sa_flags = oneshot_nomask;
    sa_restorer = restorer;
  }),
)

-- `new` is what `get_new` reads at `action`; the last result is what `save_old` puts at `oldaction`.
unfoldable pub sys_sigaction : ℕ → Action → ℕ → Process → ℕ × Process × Option Action
sys_sigaction signum new oldaction p = if is_fixed signum then (minus_one, p, none) else (
  0,
  set_action p (signum - 1)
      (record new { sa_mask = if is_nomask new then 0 else set_bit new.sa_mask (signum - 1) }),
  if oldaction == 0 then none else some (action_at p (signum - 1)),
)

-- The registers that the system call saved.
pub record Frame : Type 0 where
  pub eax : ℕ
  pub ecx : ℕ
  pub edx : ℕ
  pub eip : ℕ
  pub eflags : ℕ
  pub esp : ℕ

-- A call of the handler: the frame to return to, and the words on the user's stack from `esp` on.
abbrev pub call_handler : ℕ → Frame → Process → Frame × List ℕ × Process
call_handler signr f p =
    let sa = action_at p (signr - 1) in
    let kept =
      if is_oneshot sa then set_action p (signr - 1) (record sa { sa_handler = 0 }) else p in
    let mask = if is_nomask sa then [] else p.blocked ∷ [] in
    (
      record f { eip = sa.sa_handler; esp = sub32 f.esp (4 * (if is_nomask sa then 7 else 8)) },
      sa.sa_restorer ∷ signr ∷ (mask ++ f.eax ∷ f.ecx ∷ f.edx ∷ f.eflags ∷ f.eip ∷ []),
      record kept { blocked = bit_or p.blocked sa.sa_mask },
    )

-- The frame as it was and no words, if the signal is ignored; `do_exit` if it is not handled.
unfoldable pub do_signal : ℕ → Frame → Kernel Process (Frame × List ℕ)
do_signal signr f p =
    let sa_handler = (action_at p (signr - 1)).sa_handler in
    if sa_handler == 1
    then done (f, []) p
    else if sa_handler == 0
    then if signr == sigchld then done (f, []) p else halted exited p
    else let (frame, words, q) = call_handler signr f p in done (frame, words) q
