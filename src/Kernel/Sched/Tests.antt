-- ===== src/Kernel/Sched/Tests.antt =====
-- Runs of the scheduler, and its theorem at a table of three tasks.
use linux_0_11_read.Prelude.{ℕ, zero, suc, ◌≤◌, ◌≡◌, ◌⊎◌, [], ◌∷◌, some, arith}
use linux_0_11_read.Kernel.Sched.{Task, Tasks, slot, schedule}
use linux_0_11_read.Kernel.Sched.Choice.{IsTask, AreTasks, IsChosen, IsIdle, schedule-IsChoice}

abbrev a_task : ℕ → ℕ → Task
a_task state counter = record {
  state = state;
  counter = counter;
  priority = 15;
  signal = 0;
  blocked = 0;
  alarm = 0;
  utime = 0;
  stime = 0;
}

-- The idle task, one that has used up its time and one that sleeps.
abbrev three : Tasks
three = some (a_task 0 0) ∷ some (a_task 0 0) ∷ some (a_task 1 9) ∷ []

three-AreTasks : AreTasks three
three-AreTasks = record { each = each }
  where
    each : (j : ℕ) (p : Task) → 1 ≤ j → slot three j ≡ some p → IsTask p
    each zero p one e = elim one [ ]
    each (suc zero) p one e = ground arith
    each (suc (suc zero)) p one e = ground arith
    each (suc (suc (suc j))) p one e = absurd (ground arith)

schedule-IsChoice_example :
    (next : ℕ) × (ts : Tasks) × (schedule 2 7 three ≡ some (next, ts))
    × (((next ≡ 0) × IsIdle ts) ⊎ ((p : Task) × IsChosen ts next p))
schedule-IsChoice_example = schedule-IsChoice 0 7 three three-AreTasks
