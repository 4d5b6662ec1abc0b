-- ===== src/Kernel/Timer.antt =====
-- kernel/sched.c: `add_timer` and the timer part of `do_timer`. The list from `next_timer` is a list
-- of pairs: the ticks after the timer before it, and the function, which is a number here. The
-- slots of `timer_list[64]` in use are the ones in the list. The functions that expire are
-- recorded in order, and do not change the list while the tick lasts.
pub mod Due
pub mod Expiry
pub mod Slice
mod Tests
use linux_0_11_read.Prelude.{
  ℕ, zero, suc, ◌+◌, List, [], ◌∷◌, ◌++◌, Option, none, some, Bool, true, false, not, sub32, add32,
  slt, leb, ◌==◌, if◌then◌else◌, length, Halt, panic,
}
use linux_0_11_read.Kernel.Sched.{Task}

abbrev pub TimerList : Type 0
TimerList = List (ℕ × ℕ)

abbrev pub time_requests : ℕ
time_requests = 64

-- The `while` of `add_timer`: the new timer moves past each one with fewer ticks.
unfoldable pub sift : ℕ → ℕ → TimerList → TimerList
sift jiffies fn [] = (jiffies, fn) ∷ []
sift jiffies fn ((j, g) ∷ next) =
    if slt j jiffies then (j, g) ∷ sift (sub32 jiffies j) fn next else (jiffies, fn) ∷ (j, g) ∷ next

-- What a call comes to: a list and the functions that were called, or the panic.
pub data Added : Type 0 where
  added : TimerList → List ℕ → Added
  no_room : Added

unfoldable pub add_timer : ℕ → Option ℕ → TimerList → Added
add_timer jiffies none timers = added timers []
add_timer jiffies (some fn) timers =
    if not (slt 0 jiffies)
    then added timers (fn ∷ [])
    else if leb time_requests (length timers)
    then no_room
    else added (sift jiffies fn timers) []

-- The `while` of `do_timer`: the list that is left, and the functions called.
unfoldable pub expire : TimerList → TimerList × List ℕ
expire [] = ([], [])
expire ((j, g) ∷ next) =
    let (rest, called) = expire next in if slt 0 j then ((j, g) ∷ next, []) else (rest, g ∷ called)

unfoldable pub tick : TimerList → TimerList × List ℕ
tick [] = ([], [])
tick ((j, g) ∷ next) = expire ((sub32 j 1, g) ∷ next)

-- The accounting of `do_timer`: the current task, and whether `schedule` is called.
unfoldable pub charge : ℕ → Task → Task × Bool
charge cpl p =
    let p =
      if cpl == 0
      then record p { stime = add32 p.stime 1 }
      else record p { utime = add32 p.utime 1 } in
    let counter = sub32 p.counter 1 in
    if slt 0 counter
    then (record p { counter = counter }, false)
    else (record p { counter = 0 }, not (cpl == 0))
