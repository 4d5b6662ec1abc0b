-- ===== src/Kernel/Exit/Wait.antt =====
-- What `sys_waitpid` waits for and what it returns.
use linux_0_11_read.Prelude.{
  ℕ, ◌-◌, ◌≤◌, ◌<◌, ◌≡◌, ◌≢◌, inl, inr, refl, sym, ap, subst, ◌∙◌, Option, none, some, Bool, true,
  false, arith, Bool-cases, length, length-set, get_or-set_self, get_or-set_ne, set, Kernel,
  Outcome, done, halted, ◌>>◌,
}
use linux_0_11_read.Kernel.Sched.{nr_tasks}
use linux_0_11_read.Kernel.Process.{Process, Processes, process_at}
use linux_0_11_read.Kernel.Exit.{
  put_process, release, task_zombie, task_stopped, Scan, stopped_at, zombie_at, scanned, wait_loop,
  echild, Waited, returned, sleeping, add_times, sys_waitpid,
}
use linux_0_11_read.Kernel.Exit.Children.{IsChild, RunsChild, Ends, wait_loop-Ends}

-- The zombie in entry `i` is gone, its times are the caller's, and no other entry has changed.
pub record Reaped (me : Process) (s : Processes) (i : ℕ) (p : Process) (t : Processes)
    : Type 0 where
  pub gone : process_at t i ≡ none
  pub mine : s.current < length s.task → process_at t s.current ≡ some (add_times p me)
  pub kept : (j : ℕ) → i ≢ j → s.current ≢ j → process_at t j ≡ process_at s j

abbrev reaped : Process → Processes → ℕ → Process → Processes
reaped me s i p = put_process (put_process s s.current (some (add_times p me))) i none

reaped-Reaped :
    (me : Process) (s : Processes) (i : ℕ) (p : Process)
    → i < length s.task
    → s.current ≢ i
    → Reaped me s i p (reaped me s i p)
reaped-Reaped me s i p h ne = record {
  gone =
      get_or-set_self (set s.task s.current now) i none none
        (omega (arith, h, length-set s.task s.current now));
  mine = λ c.
      get_or-set_ne (set s.task s.current now) i s.current none none (λ e. ne (sym e))
      ∙ get_or-set_self s.task s.current now none c;
  kept = λ j a b.
      get_or-set_ne (set s.task s.current now) i j none none a
      ∙ get_or-set_ne s.task s.current j now none b;
}
  where
    now : Option Process
    now = some (add_times p me)

module _ (free_page : ℕ → Kernel Processes (Unit {0}))
    (schedule : Kernel Processes (Unit {0})) where
  release-eq :
      (i : ℕ) (s : Processes)
      → 1 ≤ i
      → i < nr_tasks
      → release free_page schedule i s ≡ (free_page i >> schedule) (put_process s i none)
  unfolding release
  release-eq i s a b = ground (arith, a, b)

  release-then :
      (i : ℕ) (s : Processes) (m : Kernel Processes Waited)
      → 1 ≤ i
      → i < nr_tasks
      → (release free_page schedule i >> m) s
        ≡ ((free_page i >> schedule) >> m) (put_process s i none)
  release-then i s m a b =
      ap
        (λ (o : Outcome Processes (Unit {0})). elim o as (λ x. Outcome Processes Waited) [
          | done u t ↦ m t
          | halted h t ↦ halted h t
        ])
        (release-eq i s a b)

  -- How a `sys_waitpid` ends: with a zombie child, a stopped one, none at all, or one that runs.
  pub data Answer (me : Process) (pid : ℕ) (untraced no_hang : Bool) (s : Processes)
      : Outcome Processes Waited → Type 0 where
    reaps :
        {i : ℕ} {p : Process} {t : Processes}
        → IsChild me pid s i p
        → p.state ≡ task_zombie
        → Reaped me s i p t
        → Answer me pid untraced no_hang s
            (((free_page i >> schedule) >> done (returned p.pid (some p.exit_code))) t)
    stops :
        {i : ℕ} {p : Process}
        → IsChild me pid s i p
        → p.state ≡ task_stopped
        → untraced ≡ true
        → Answer me pid untraced no_hang s (done (returned p.pid (some 127)) s)
    fails :
        ((j : ℕ) (p : Process)
          → j < nr_tasks
          → IsChild me pid s j p
          → (p.state ≡ task_stopped) × (untraced ≡ false))
        → Answer me pid untraced no_hang s (done (returned echild none) s)
    polls :
        ((j : ℕ) (p : Process) → j < nr_tasks → IsChild me pid s j p → p.state ≢ task_zombie)
        → RunsChild me pid s (nr_tasks - 1)
        → no_hang ≡ true
        → Answer me pid untraced no_hang s (done (returned 0 none) s)
    waits :
        ((j : ℕ) (p : Process) → j < nr_tasks → IsChild me pid s j p → p.state ≢ task_zombie)
        → RunsChild me pid s (nr_tasks - 1)
        → no_hang ≡ false
        → Answer me pid untraced no_hang s
            (done sleeping (put_process s s.current (some (record me { state = 1 }))))

  module _ (me : Process) (pid : ℕ) (untraced no_hang : Bool) (s : Processes) where
    Ends-Answer :
        (end : Scan)
        → length s.task ≡ nr_tasks
        → wait_loop me pid untraced s (nr_tasks - 1) false ≡ end
        → Ends me pid untraced s (nr_tasks - 1) false end
        → Answer me pid untraced no_hang s
            (sys_waitpid free_page schedule me pid untraced no_hang s)
    unfolding Ends sys_waitpid
    Ends-Answer (stopped_at i) size e (le, u, p, k, st) = rw (e, k.here, sys_waitpid) (stops k st u)
    Ends-Answer (zombie_at i) size e (le, p, k, z) =
        let u = put_process s s.current (some (add_times p me)) in
        rw (e, k.here, sys_waitpid)
          (subst (Answer me pid untraced no_hang s)
            (sym (
              release-then i u (done (returned p.pid (some p.exit_code))) k.from
                (omega (arith, le))))
            (reaps k z (reaped-Reaped me s i p (omega (arith, le, size)) k.other)))
    Ends-Answer (scanned true) size e (a, f, g, c) = elim (Bool-cases no_hang) [
      | inl n ↦ rw (e, n, sys_waitpid) (polls (λ j p le. a j p (omega (arith, le))) running refl)
      | inr n ↦ rw (e, n, sys_waitpid) (waits (λ j p le. a j p (omega (arith, le))) running refl)
    ]
      where
        running : RunsChild me pid s (nr_tasks - 1)
        running = elim (g refl) [ inl x ↦ absurd cc | inr r ↦ r ]
    Ends-Answer (scanned false) size e (a, f, g, c) =
        rw (e, sys_waitpid) (fails (λ j p le. c refl j p (omega (arith, le))))

-- With a table of 64 entries sys_waitpid ends in one of these ways. It reaps a zombie child that
-- pid asks for, whose times go to the caller, whose entry is emptied, and no other entry changes,
-- and returns it once free_page of its page and schedule have returned; or it returns a stopped
-- child under WUNTRACED; or ECHILD, only if every child asked for is stopped and WUNTRACED is off;
-- or, only if a child asked for is neither and none is a zombie, it returns 0 under WNOHANG and
-- else sleeps.
pub sys_waitpid-Answer :
    (free_page : ℕ → Kernel Processes (Unit {0})) (schedule : Kernel Processes (Unit {0}))
    (me : Process) (pid : ℕ) (untraced no_hang : Bool) (s : Processes)
    → length s.task ≡ nr_tasks
    → Answer free_page schedule me pid untraced no_hang s
        (sys_waitpid free_page schedule me pid untraced no_hang s)
sys_waitpid-Answer free_page schedule me pid untraced no_hang s size =
    Ends-Answer free_page schedule me pid untraced no_hang s _ size refl
      (wait_loop-Ends me pid untraced s (nr_tasks - 1) false)
