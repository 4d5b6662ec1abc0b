-- ===== src/Kernel/Exit/Kill.antt =====
-- Who gets the signal of a `sys_kill`.
use linux_0_11_read.Prelude.{
  ℕ, zero, suc, ◌-◌, ◌≤◌, ◌<◌, ◌≡◌, inl, inr, refl, Option, none, some, Bool, true, false, not,
  ◌&&◌, ◌||◌, ◌==◌, ltb, slt, neg32, if◌then◌else◌, arith, Bool-cases, length,
}
use linux_0_11_read.Kernel.Sched.{nr_tasks}
use linux_0_11_read.Kernel.Process.{Process, Processes, process_at}
use linux_0_11_read.Kernel.Exit.{send_sig, task_with, send_all, sys_kill}
use linux_0_11_read.Kernel.Exit.Send.{
  may_send, after_kill, Sent, Sent-who, send_sig-may, send_sig-may_not, once, once-ne, once-length,
  Sent-round, send_loop-Sent, no_entry-Sent,
}

-- Whether the signal may go to some process in the entries from `j + 1` to `n`.
abbrev pub may_get : Process → ℕ → Option Process → Bool
may_get me sig none = false
may_get me sig (some p) = may_send me sig p false

pub got_above : Process → ℕ → Processes → ℕ → ℕ → Bool
got_above me sig s zero j = false
got_above me sig s (suc n) j =
    (ltb j (suc n) && may_get me sig (process_at s (suc n))) || got_above me sig s n j

-- Which processes `sys_kill` of `pid` sends to, by the entry and the process.
abbrev pub is_target : Process → ℕ → ℕ → Processes → ℕ → Process → Bool
is_target me pid sig s j p =
    if pid == 0
    then p.pgrp == me.pid
    else if slt 0 pid
    then p.pid == pid
    else (pid == neg32 1) && (not (got_above me sig s (nr_tasks - 1) j) || (p.pgrp == 1))

-- For a pid of -1.
abbrev everyone : Process → ℕ → Processes → ℕ → ℕ → Process → Bool
everyone me sig s n j p = not (got_above me sig s n j) || (p.pgrp == 1)

got_above-none :
    (me : Process) (sig : ℕ) (s : Processes) (n j : ℕ) → n ≤ j → got_above me sig s n j ≡ false
unfolding got_above
got_above-none me sig s zero j h = refl
got_above-none me sig s (suc n) j h = ground (arith, h, got_above-none me sig s n j)

got_above-same :
    (me : Process) (sig : ℕ) (s t : Processes) (n j : ℕ)
    → ((i : ℕ) → i ≤ n → process_at t i ≡ process_at s i)
    → got_above me sig t n j ≡ got_above me sig s n j
unfolding got_above
got_above-same me sig s t zero j e = refl
got_above-same me sig s t (suc n) j e =
    rw (e (suc n) (omega arith), got_above-same me sig s t n j (λ i le. e i (omega (arith, le))))
      refl

sent-may_get :
    (me : Process) (sig : ℕ) (o : Option Process)
    → (send_sig me sig o false).0 ≡ 0
    → may_get me sig o ≡ true
unfolding send_sig
sent-may_get me sig none e = absurd (omega (arith, e))
sent-may_get me sig (some p) e = elim (Bool-cases (may_send me sig p false)) [
  | inl may ↦ may
  | inr may_not ↦ absurd ((send_sig-may_not me sig p false may_not).0 e)
]

not_sent-may_get :
    (me : Process) (sig : ℕ) (o : Option Process)
    → ((send_sig me sig o false).0 == 0) ≡ false
    → may_get me sig o ≡ false
not_sent-may_get me sig none e = refl
not_sent-may_get me sig (some p) e = elim (Bool-cases (may_send me sig p false)) [
  | inl may ↦ absurd (cc (rw (send_sig-may me sig p false may) at e))
  | inr may_not ↦ may_not
]

send_all-Sent :
    (me : Process) (sig n retval : ℕ) (s : Processes)
    → n < length s.task
    → let (result, t) = send_all me sig n retval s in
      Sent me sig false (everyone me sig s n) n retval s result t
unfolding send_all got_above
send_all-Sent me sig zero retval s h = no_entry-Sent me sig false _ retval s
send_all-Sent me sig (suc n) retval s h =
    elim (Bool-cases ((send_sig me sig (process_at s (suc n)) false).0 == 0)) [
      | inl sent ↦
          rw (sent, send_all)
            (Sent-round me sig (λ p. true) false (everyone me sig s (suc n)) n retval s h _ _
              (λ p e. first p)
              (rw sent (
                send_loop-Sent me sig (task_with (λ p. p.pgrp == 1)) false
                  (everyone me sig s (suc n)) n retval u room (λ j p le. only_group j p le sent))))
      | inr failed ↦
          rw (failed, send_all)
            (Sent-round me sig (λ p. true) false (everyone me sig s (suc n)) n retval s h _ _
              (λ p e. first p)
              (rw failed (
                Sent-who (λ j p le. as_before j p le failed)
                  (send_all-Sent me sig n (send_sig me sig (process_at s (suc n)) false).0 u
                    room))))
    ]
  where
    u : Processes
    u = once me sig (λ p. true) false n s h

    room : n < length u.task
    room = omega (arith, h, once-length me sig (λ p. true) false n s h)

    first : (p : Process) → everyone me sig s (suc n) (suc n) p ≡ true
    first p = ground (arith, got_above-none me sig s (suc n) (suc n))

    only_group :
        (j : ℕ) (p : Process)
        → j ≤ n
        → ((send_sig me sig (process_at s (suc n)) false).0 == 0) ≡ true
        → everyone me sig s (suc n) j p ≡ (p.pgrp == 1)
    only_group j p le sent =
        let got = sent-may_get me sig (process_at s (suc n)) (ground (arith, sent)) in
        ground (arith, le, got)

    as_before :
        (j : ℕ) (p : Process)
        → j ≤ n
        → ((send_sig me sig (process_at s (suc n)) false).0 == 0) ≡ false
        → everyone me sig u n j p ≡ everyone me sig s (suc n) j p
    as_before j p le failed =
        let got = not_sent-may_get me sig (process_at s (suc n)) failed in
        let same =
          got_above-same me sig s u n j
            (λ i le. once-ne me sig (λ p. true) false n s h i (omega (arith, le))) in
        ground (arith, got, same)

-- In a table of 64 entries, sys_kill gives the signal to every process but the first that pid
-- names and that the caller may send it to, and changes nothing else; a result of 0 says that the
-- caller might send it to all of them. A pid of 0 names, with any permission, the processes whose
-- group is the pid of the caller; a positive one those with this pid; -1 the processes from the
-- highest entry down to the first that takes the signal, and below it those of group 1; a pid
-- below -1 none.
pub sys_kill-Sent :
    (me : Process) (pid sig : ℕ) (s : Processes)
    → length s.task ≡ nr_tasks
    → let (result, t) = sys_kill me pid sig s in
      Sent me sig (pid == 0) (is_target me pid sig s) (nr_tasks - 1) 0 s result t
unfolding sys_kill
sys_kill-Sent me pid sig s size = elim (Bool-cases (pid == 0)) [
  | inl zero_pid ↦
      rw (zero_pid, sys_kill)
        (Sent-who (λ j p le. rw zero_pid refl)
          (send_loop-Sent me sig (task_with (λ q. q.pgrp == me.pid)) true _ (nr_tasks - 1) 0 s room
            (λ j p le. refl)))
  | inr other ↦ elim (Bool-cases (slt 0 pid)) [
    | inl positive ↦
        rw (other, positive, sys_kill)
          (Sent-who (λ j p le. rw (other, positive) refl)
            (send_loop-Sent me sig (task_with (λ q. q.pid == pid)) false _ (nr_tasks - 1) 0 s room
              (λ j p le. refl)))
    | inr negative ↦ elim (Bool-cases (pid == neg32 1)) [
      | inl all ↦
          rw (other, negative, all, sys_kill)
            (Sent-who (λ j p le. rw (other, negative, all) refl)
              (send_all-Sent me sig (nr_tasks - 1) 0 s room))
      | inr group ↦
          rw (other, negative, group, sys_kill)
            (Sent-who (λ j p le. rw (other, negative, group) refl) (no_one s))
    ]
  ]
]
  where
    room : nr_tasks - 1 < length s.task
    room = omega (arith, size)

    no_one : (s : Processes) → Sent me sig false (λ j p. false) (nr_tasks - 1) 0 s 0 s
    no_one s = record {
      changed = λ j a b. unchanged (process_at s j);
      kept = λ j k. refl;
      size = refl;
      from_zero = λ e. e;
      all_sent = λ e j p a b here target. absurd cc;
    }
      where
        unchanged : (o : Option Process) → o ≡ after_kill me sig false (λ p. false) o
        unchanged none = refl
        unchanged (some p) = refl
