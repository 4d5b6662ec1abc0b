-- ===== src/Kernel/Wait/Tests.antt =====
-- Runs of the wait queue, and the theorem for one sleeper.
use linux_0_11_read.Prelude.{ℕ, ◌≡◌, ◌≢◌, refl, some, none, arith, done}
use linux_0_11_read.Kernel.Wait.{
  Waiting, fall_asleep, sleep_on, wake_next, interruptible_sleep_on, repeat_or_leave, wake_up,
}
use linux_0_11_read.Kernel.Wait.Lost.{begins, sleeps, goes_on, wakes, Runs-none_asleep}

abbrev all_awake : Waiting
all_awake = record { first = none; state = λ i. 0; tmp = λ i. none }

-- Tasks 3 and 4 sleep and are woken, the second one first.
abbrev woken : Waiting
woken = wake_up (fall_asleep 2 4 (fall_asleep 2 3 all_awake))

abbrev both_on : Waiting
both_on = wake_next 3 none (wake_next 4 (some 3) woken)

nobody_waits : (i : ℕ) → both_on.tmp i ≢ none → both_on.state i ≢ 0
unfolding wake_next wake_up
nobody_waits i inside = ground arith

Runs-none_asleep_example : both_on.tmp 3 ≡ none
unfolding sleep_on wake_up wake_next
Runs-none_asleep_example =
    Runs-none_asleep {start = all_awake} (λ i. refl)
      (goes_on
        (goes_on (wakes (sleeps (sleeps begins 3 refl refl) 4 refl refl)) 4 (some 3) refl refl) 3
        none refl refl)
      refl nobody_waits 3

-- Task 3 sleeps in `interruptible_sleep_on` and is woken; task 4 goes to sleep before task 3 runs, which
-- wakes it and sleeps again. Task 4 leaves the queue empty, and task 3 inside it.
abbrev overtaken : Waiting
overtaken = repeat_or_leave 3 none (fall_asleep 1 4 (wake_up (fall_asleep 1 3 all_awake)))

lost_sleeper :
    let s = repeat_or_leave 4 none overtaken in
    (s.first ≡ none) × (s.tmp 3 ≡ some none) × (s.state 3 ≡ 1) × (s.tmp 4 ≡ none)
unfolding repeat_or_leave wake_up
lost_sleeper = (refl, refl, refl, refl)

sleeps_in_state_1 : (s : Waiting) → interruptible_sleep_on 1 s ≡ done tt (fall_asleep 1 1 s)
unfolding interruptible_sleep_on
sleeps_in_state_1 s = refl
