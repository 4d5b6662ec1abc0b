-- ===== src/Kernel/Sched.antt =====
-- kernel/sched.c: the task table, `schedule`, and the small system calls on the current task. A task
-- pointer is an index into `task[NR_TASKS]`.
pub mod Pick
pub mod Choice
mod Tests
use Prim.Native.Nat.{bit_and, bit_or}
use linux_0_11_read.Prelude.{
  ℕ, zero, suc, ◌+◌, ◌-◌, ◌*◌, ◌/◌, ◌^◌, ◌&&◌, ◌||◌, not, Bool, true, false, List, [], ◌∷◌, map,
  Option, none, some, add32, sub32, mul32, sdiv, slt, sar1, minus_one, ◌==◌, leb, if◌then◌else◌,
  get_or, set,
}

-- The fields of `struct task_struct` that sched.c reads or writes; each is a 32-bit word.
pub record Task : Type 0 where
  pub state : ℕ
  pub counter : ℕ
  pub priority : ℕ
  pub signal : ℕ
  pub blocked : ℕ
  pub alarm : ℕ
  pub utime : ℕ
  pub stime : ℕ

abbrev pub task_running : ℕ
task_running = 0

abbrev pub task_interruptible : ℕ
task_interruptible = 1

abbrev pub nr_tasks : ℕ
nr_tasks = 64

abbrev pub hz : ℕ
hz = 100

-- `task[NR_TASKS]`; NULL is `none`.
abbrev pub Tasks : Type 0
Tasks = List (Option Task)

abbrev pub slot : Tasks → ℕ → Option Task
slot ts i = get_or ts i none

-- 1 << (SIGALRM - 1), and ~(_S(SIGKILL) | _S(SIGSTOP))
abbrev pub sigalrm_bit : ℕ
sigalrm_bit = 2 ^ 13

abbrev pub blockable : ℕ
blockable = 2 ^ 32 - 1 - (2 ^ 8 + 2 ^ 18)

-- ~x
abbrev pub bit_not : ℕ → ℕ
bit_not x = 2 ^ 32 - 1 - x

-- The signals of a task that are not blocked.
abbrev pub pending : Task → ℕ
pending p = bit_and p.signal (bit_not (bit_and blockable p.blocked))

unfoldable pub check_alarm : ℕ → Task → Task
check_alarm jiffies p =
    if not (p.alarm == 0) && slt p.alarm jiffies
    then record p { signal = bit_or p.signal sigalrm_bit; alarm = 0 }
    else p

unfoldable pub check_signal : Task → Task
check_signal p =
    if not (pending p == 0) && p.state == task_interruptible
    then record p { state = task_running }
    else p

-- `if (*p)` before a change of `**p`
abbrev pub on_task : (Task → Task) → Option Task → Option Task
on_task f none = none
on_task f (some p) = some (f p)

-- A loop `for (p = &LAST_TASK; p > &FIRST_TASK; --p) if (*p)` whose body changes `**p` alone: each
-- entry but the first is changed by itself.
unfoldable pub for_tasks : (Task → Task) → Tasks → Tasks
for_tasks f [] = []
for_tasks f (first ∷ ts) = first ∷ map (on_task f) ts

-- The test of one task by the scheduler proper, against the best counter and index so far.
unfoldable pub consider : Option Task → ℕ → ℕ × ℕ → ℕ × ℕ
consider none i best = best
consider (some p) i (c, next) =
    if p.state == task_running && slt c p.counter then (p.counter, i) else (c, next)

-- `while (--i)`, down to index 1.
unfoldable pub pick : Tasks → ℕ → ℕ × ℕ → ℕ × ℕ
pick ts zero best = best
pick ts (suc i) best = pick ts i (consider (slot ts (suc i)) (suc i) best)

unfoldable pub refill : Task → Task
refill p = record p { counter = add32 (sar1 p.counter) p.priority }

-- `while (1)`, on fuel: the task that `switch_to` is given, and the table.
unfoldable pub choose : ℕ → Tasks → Option (ℕ × Tasks)
choose zero ts = none
choose (suc fuel) ts =
    let (c, next) = pick ts (nr_tasks - 1) (minus_one, 0) in
    elim (c == 0) [ true ↦ choose fuel (for_tasks refill ts) | false ↦ some (next, ts) ]

unfoldable pub schedule : ℕ → ℕ → Tasks → Option (ℕ × Tasks)
schedule fuel jiffies ts = choose fuel (for_tasks (λ p. check_signal (check_alarm jiffies p)) ts)

-- `sys_nice`: the increment may be negative.
unfoldable pub sys_nice : ℕ → Task → Task
sys_nice increment p =
    if slt 0 (sub32 p.priority increment)
    then record p { priority = sub32 p.priority increment }
    else p

-- `sys_alarm`: the new task, and the seconds that were left.
unfoldable pub sys_alarm : ℕ → ℕ → Task → Task × ℕ
sys_alarm jiffies seconds p = (
  record p { alarm = if slt 0 seconds then add32 jiffies (mul32 hz seconds) else 0 },
  if p.alarm == 0 then 0 else sdiv (sub32 p.alarm jiffies) hz,
)
