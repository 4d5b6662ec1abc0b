-- ===== src/Kernel/Signals/Deadly.antt =====
-- SIGKILL always ends the process.
use linux_0_11_read.Prelude.{
  ℕ, ◌-◌, ◌≡◌, ◌≢◌, inl, inr, ◌∙◌, ap, List, arith, false, Bool-cases, ◌==◌, get_or-set_ne, subst,
  Outcome, done, halted, exited,
}
use linux_0_11_read.Kernel.Process.{Action, no_action, Process}
use linux_0_11_read.Kernel.Signals.{
  sigkill, sigchld, action_at, set_action, is_fixed, is_oneshot, sys_ssetmask, sys_signal,
  sys_sigaction, Frame, call_handler, do_signal,
}

-- The calls of the process on its signals, and the handlers that are called, in any order.
pub data Life (p : Process) : Process → Type 0 where
  born : Life p p
  masks : {q : Process} → Life p q → (newmask : ℕ) → Life p (sys_ssetmask newmask q).1
  signals :
      {q : Process}
      → Life p q
      → (signum handler restorer : ℕ) → Life p (sys_signal signum handler restorer q).1
  acts :
      {q : Process}
      → Life p q
      → (signum : ℕ) (new : Action) (oldaction : ℕ)
      → Life p (sys_sigaction signum new oldaction q).1
  handles :
      {q r : Process}
      → Life p q
      → (signr : ℕ) (f g : Frame) (words : List ℕ) → do_signal signr f q ≡ done (g, words) r
      → Life p r

-- SIGKILL has the default action.
abbrev pub IsMortal : Process → Type 0
IsMortal p = (action_at p (sigkill - 1)).sa_handler ≡ 0

set_action-IsMortal :
    (p : Process) (k : ℕ) (a : Action) → k ≢ sigkill - 1 → IsMortal p → IsMortal (set_action p k a)
set_action-IsMortal p k a ne m =
    ap (λ (x : Action). x.sa_handler) (get_or-set_ne p.sigaction k (sigkill - 1) a no_action ne) ∙ m

ssetmask_same : (newmask : ℕ) (p : Process) → IsMortal p → IsMortal (sys_ssetmask newmask p).1
unfolding sys_ssetmask
ssetmask_same newmask p m = m

not_fixed : (signum : ℕ) → is_fixed signum ≡ false → signum - 1 ≢ sigkill - 1
not_fixed signum h = ground arith

sys_signal-IsMortal :
    (signum handler restorer : ℕ) (p : Process)
    → IsMortal p
    → IsMortal (sys_signal signum handler restorer p).1
unfolding sys_signal
sys_signal-IsMortal signum handler restorer p m = elim (Bool-cases (is_fixed signum)) [
  | inl h ↦ rw h m
  | inr h ↦ rw h (set_action-IsMortal p (signum - 1) _ (not_fixed signum h) m)
]

sys_sigaction-IsMortal :
    (signum : ℕ) (new : Action) (oldaction : ℕ) (p : Process)
    → IsMortal p
    → IsMortal (sys_sigaction signum new oldaction p).1
unfolding sys_sigaction
sys_sigaction-IsMortal signum new oldaction p m = elim (Bool-cases (is_fixed signum)) [
  | inl h ↦ rw h m
  | inr h ↦ rw h (set_action-IsMortal p (signum - 1) _ (not_fixed signum h) m)
]

call_handler-IsMortal :
    (signr : ℕ) (f : Frame) (p : Process)
    → (action_at p (signr - 1)).sa_handler ≢ 0
    → IsMortal p
    → IsMortal (call_handler signr f p).2
call_handler-IsMortal signr f p ne m = elim (Bool-cases (is_oneshot (action_at p (signr - 1)))) [
  | inl h ↦
      rw h (
        set_action-IsMortal p (signr - 1) _ (λ e. ne (ap (λ k. (action_at p k).sa_handler) e ∙ m))
          m)
  | inr h ↦ rw h m
]

state_of : Outcome Process (Frame × List ℕ) → Process
state_of (done _ q) = q
state_of (halted _ q) = q

do_signal-IsMortal :
    (signr : ℕ) (f : Frame) (p : Process) → IsMortal p → IsMortal (state_of (do_signal signr f p))
unfolding do_signal state_of
do_signal-IsMortal signr f p m = elim (Bool-cases ((action_at p (signr - 1)).sa_handler == 1)) [
  | inl one ↦ rw one m
  | inr more ↦ elim (Bool-cases ((action_at p (signr - 1)).sa_handler == 0)) [
    | inl h ↦ elim (Bool-cases (signr == sigchld)) [
      | inl child ↦ rw (more, h, child) m
      | inr other ↦ rw (more, h, other) m
    ]
    | inr h ↦ rw (more, h) (call_handler-IsMortal signr f p (ground (arith, h)) m)
  ]
]

Life-IsMortal : {p q : Process} → IsMortal p → Life p q → IsMortal q
unfolding state_of
Life-IsMortal m born = m
Life-IsMortal m (masks {q} life newmask) = ssetmask_same newmask q (Life-IsMortal m life)
Life-IsMortal m (signals {q} life signum handler restorer) =
    sys_signal-IsMortal signum handler restorer q (Life-IsMortal m life)
Life-IsMortal m (acts {q} life signum new oldaction) =
    sys_sigaction-IsMortal signum new oldaction q (Life-IsMortal m life)
Life-IsMortal m (handles {q} life signr f g words e) =
    subst IsMortal (ap state_of e) (do_signal-IsMortal signr f q (Life-IsMortal m life))

-- Whatever a process with no handler of SIGKILL calls on its signals, and whatever handlers run, a
-- SIGKILL that is delivered later ends it.
pub do_signal-exited :
    {p q : Process} (f : Frame) → IsMortal p → Life p q → do_signal sigkill f q ≡ halted exited q
unfolding do_signal
do_signal-exited {q} f m life = let e = Life-IsMortal m life in ground (arith, e)
