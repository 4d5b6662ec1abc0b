-- ===== src/Kernel/Timer/Tests.antt =====
-- Runs of the timers, and the theorems at a list of two.
use linux_0_11_read.Prelude.{◌≡◌, refl, [], ◌∷◌, some, arith}
use linux_0_11_read.Kernel.Sched.{Task}
use linux_0_11_read.Kernel.Timer.{TimerList, sift, add_timer, added, tick, expire}
use linux_0_11_read.Kernel.Timer.Due.{dues, due_before, due_from, last_due, add_timer-dues}
use linux_0_11_read.Kernel.Timer.Expiry.{ticks, due_by, ticks_lem}

-- Function 1 in 5 ticks and function 2 in 12.
abbrev two : TimerList
two = (5, 1) ∷ (7, 2) ∷ []

-- Function 3 in 9 ticks: function 2 is then due in 16.
two_and_a_third : dues 0 (sift 9 3 two) ≡ (5, 1) ∷ (9, 3) ∷ (16, 2) ∷ []
unfolding dues sift
two_and_a_third = refl

add_timer-dues_example :
    (t : TimerList) × (add_timer 9 (some 3) two ≡ added t [])
    × (dues 0 t ≡ (5, 1) ∷ (9, 3) ∷ (16, 2) ∷ [])
unfolding dues due_before due_from last_due
add_timer-dues_example =
    add_timer-dues 9 3 two (omega arith) (omega arith) (omega arith) (omega arith)

ticks_lem_example : (ticks 6 two).1 ≡ due_by 6 (dues 0 two)
ticks_lem_example = ticks_lem 6 two (omega arith) (omega arith)

six_ticks_call : (ticks 6 two).1 ≡ 1 ∷ []
unfolding ticks tick expire
six_ticks_call = refl

abbrev fresh : Task
fresh = record {
  state = 0;
  counter = 15;
  priority = 15;
  signal = 0;
  blocked = 0;
  alarm = 0;
  utime = 0;
  stime = 0;
}
