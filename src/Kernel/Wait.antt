-- ===== src/Kernel/Wait.antt =====
-- kernel/sched.c: `sleep_on`, `interruptible_sleep_on` and `wake_up` on one wait queue `*p`. Each call
-- of `schedule` cuts a function in two: the part before it runs at once, the part behind it when
-- the scheduler picks the task again, which it does in state 0 alone.
pub mod Lost
mod Tests
use linux_0_11_read.Prelude.{
  ℕ, Option, none, some, Bool, true, false, not, ◌&&◌, ◌==◌, if◌then◌else◌, Kernel, Outcome, done,
  halted, panic,
}
use linux_0_11_read.Kernel.Sched.{task_running, task_interruptible}

abbrev pub task_uninterruptible : ℕ
task_uninterruptible = 2

-- `*p`; the state of each task; and for a task inside a sleep, its local `tmp`.
pub record Waiting : Type 0 where
  pub first : Option ℕ
  pub state : ℕ → ℕ
  pub tmp : ℕ → Option (Option ℕ)

abbrev pub put {ℓ} : {A : Type ℓ} → (ℕ → A) → ℕ → A → ℕ → A
put f i a j = if j == i then a else f j

-- `if (tmp) tmp->state=0;`
abbrev pub set_running : Option ℕ → Waiting → Waiting
set_running none s = s
set_running (some j) s = record s { state = put s.state j task_running }

-- The part of a sleep before `schedule`, with the state that the task gets.
abbrev pub fall_asleep : ℕ → ℕ → Waiting → Waiting
fall_asleep state i s = record s {
  first = some i;
  state = put s.state i state;
  tmp = put s.tmp i (some s.first);
}

unfoldable pub sleep_on : ℕ → Kernel Waiting (Unit {0})
sleep_on i s = if i == 0 then halted panic s else done tt (fall_asleep task_uninterruptible i s)

-- The part of `sleep_on` behind `schedule`, with the value of `tmp`.
unfoldable pub wake_next : ℕ → Option ℕ → Waiting → Waiting
wake_next i tmp s = set_running tmp (record s { tmp = put s.tmp i none })

unfoldable pub interruptible_sleep_on : ℕ → Kernel Waiting (Unit {0})
interruptible_sleep_on i s =
    if i == 0 then halted panic s else done tt (fall_asleep task_interruptible i s)

-- What is behind `schedule` there: back to sleep if another task is first, or else on.
unfoldable pub repeat_or_leave : ℕ → Option ℕ → Waiting → Waiting
repeat_or_leave i tmp s = elim s.first [
  | none ↦ set_running tmp (record s { tmp = put s.tmp i none })
  | some j ↦
      if j == i
      then set_running tmp (record s { first = none; tmp = put s.tmp i none })
      else record s { state = put (put s.state j task_running) i task_interruptible }
]

unfoldable pub wake_up : Waiting → Waiting
wake_up s = elim s.first [ none ↦ s | some j ↦ record (set_running (some j) s) { first = none } ]
