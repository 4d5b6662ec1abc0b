-- ===== src/Kernel/Timer/Slice.antt =====
-- The time slice of a task that stays in user mode.
use linux_0_11_read.Prelude.{ℕ, zero, suc, ◌-◌, ◌^◌, ◌≤◌, ◌<◌, ◌≡◌, Bool, false, arith, ◌==◌}
use linux_0_11_read.Kernel.Sched.{Task}
use linux_0_11_read.Kernel.Timer.{charge}

-- `n` timer interrupts in user mode: the task, and whether the last one called `schedule`.
pub user_ticks : ℕ → Task → Task × Bool
user_ticks zero p = (p, false)
user_ticks (suc n) p = let (q, called) = user_ticks n p in charge 3 q

-- Over n timer interrupts in user mode, for n from 1 to the counter, which is below 2^31, the
-- counter goes down by n, and the last one calls schedule if and only if it brings the counter to
-- 0.
pub user_ticks_lem :
    (n : ℕ) (p : Task)
    → 0 < p.counter
    → p.counter < 2 ^ 31
    → 0 < n
    → n ≤ p.counter
    → ((user_ticks n p).0.counter ≡ p.counter - n) × ((user_ticks n p).1 ≡ (n == p.counter))
unfolding user_ticks charge
user_ticks_lem zero p pos lt one le = absurd (omega arith)
user_ticks_lem (suc zero) p pos lt one le = ground arith
user_ticks_lem (suc (suc n)) p pos lt one le = ground (arith, user_ticks_lem (suc n) p)
