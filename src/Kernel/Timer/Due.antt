-- ===== src/Kernel/Timer/Due.antt =====
-- When the timers are due, before and after `add_timer`.
use linux_0_11_read.Prelude.{
  ℕ, ◌+◌, ◌-◌, ◌^◌, ◌<◌, ◌≤◌, true, false, ltb, if◌then◌else◌, ◌≡◌, refl, sym, ap, ◌∙◌, List, [],
  ◌∷◌, ◌++◌, map, arith, slt, sub32, Bool-cases, inl, inr, some, length,
}
use linux_0_11_read.Kernel.Timer.{TimerList, time_requests, sift, add_timer, added}

-- The time of each timer, in ticks from now, for a list that starts `base` ticks from now.
unfoldable pub dues : ℕ → TimerList → List (ℕ × ℕ)
dues base [] = []
dues base ((j, g) ∷ next) = (base + j, g) ∷ dues (base + j) next

-- Every number of ticks is that of a positive word, or 0.
abbrev pub AreTicks : TimerList → Type 0
AreTicks [] = Unit {0}
AreTicks ((j, g) ∷ next) = (j < 2 ^ 31) × AreTicks next

abbrev pub delay : ℕ → List (ℕ × ℕ) → List (ℕ × ℕ)
delay d l = map (λ t. (t.0 + d, t.1)) l

-- The timers due before a time, those that are not, and the last of some times, or `base`.
unfoldable pub due_before : ℕ → List (ℕ × ℕ) → List (ℕ × ℕ)
due_before time [] = []
due_before time ((at, g) ∷ next) =
    let rest = due_before time next in if ltb at time then (at, g) ∷ rest else rest

unfoldable pub due_from : ℕ → List (ℕ × ℕ) → List (ℕ × ℕ)
due_from time [] = []
due_from time ((at, g) ∷ next) =
    let rest = due_from time next in if ltb at time then rest else (at, g) ∷ rest

unfoldable pub last_due : ℕ → List (ℕ × ℕ) → ℕ
last_due base [] = base
last_due base ((at, g) ∷ next) = last_due at next

swap_last : (a b c : ℕ) → a + b + c ≡ a + c + b
swap_last a b c = omega arith

dues-delay : (base d : ℕ) (l : TimerList) → dues (base + d) l ≡ delay d (dues base l)
unfolding dues
dues-delay base d [] = refl
dues-delay base d ((j, g) ∷ next) =
    rw (swap_last base d j)
      (ap (λ (l : List (ℕ × ℕ)). (base + j + d, g) ∷ l) (dues-delay (base + j) d next))

passed :
    (base j jiffies : ℕ)
    → j < jiffies
    → jiffies < 2 ^ 31
    → base + j + sub32 jiffies j ≡ base + jiffies
passed base j jiffies le lt = omega arith

-- From `base` on no timer is due before `base`.
none_before : (time base : ℕ) (l : TimerList) → time ≤ base → due_before time (dues base l) ≡ []
unfolding dues due_before
none_before time base [] h = refl
none_before time base ((j, g) ∷ next) h =
    ground (arith, h, none_before time (base + j) next (omega (arith, h)))

all_from : (time base : ℕ) (l : TimerList) → time ≤ base → due_from time (dues base l) ≡ dues base l
unfolding dues due_from
all_from time base [] h = refl
all_from time base ((j, g) ∷ next) h =
    ground (arith, h, all_from time (base + j) next (omega (arith, h)))

-- The times after `add_timer`: the later timers move behind the new one.
abbrev pub with_timer : ℕ → ℕ → ℕ → List (ℕ × ℕ) → List (ℕ × ℕ)
with_timer base time fn l =
    let early = due_before time l in
    early ++ (time, fn) ∷ delay (time - last_due base early) (due_from time l)

with_timer-first :
    (base time fn : ℕ) (l : List (ℕ × ℕ))
    → due_before time l ≡ []
    → due_from time l ≡ l
    → with_timer base time fn l ≡ (time, fn) ∷ delay (time - base) l
unfolding last_due
with_timer-first base time fn l a b = rw (a, b) refl

-- No timer is due before the new one.
with_timer-late :
    (base time fn j g : ℕ) (next : TimerList)
    → time ≤ base + j
    → with_timer base time fn (dues base ((j, g) ∷ next))
      ≡ (time, fn) ∷ delay (time - base) (dues base ((j, g) ∷ next))
unfolding dues due_before due_from
with_timer-late base time fn j g next h =
    with_timer-first base time fn (dues base ((j, g) ∷ next)) none all
  where
    here : ltb (base + j) time ≡ false
    here = ground (arith, h)

    none : due_before time (dues base ((j, g) ∷ next)) ≡ []
    none = rw here (none_before time (base + j) next h)

    all : due_from time (dues base ((j, g) ∷ next)) ≡ dues base ((j, g) ∷ next)
    all = rw here (ap (λ (l : List (ℕ × ℕ)). (base + j, g) ∷ l) (all_from time (base + j) next h))

sift-dues :
    (base jiffies fn : ℕ) (l : TimerList)
    → 0 < jiffies
    → jiffies < 2 ^ 31
    → AreTicks l
    → dues base (sift jiffies fn l) ≡ with_timer base (base + jiffies) fn (dues base l)
unfolding dues sift due_before due_from last_due
sift-dues base jiffies fn [] pos lt ticks = refl
sift-dues base jiffies fn ((j, g) ∷ next) pos lt ticks = elim (Bool-cases (slt j jiffies)) [
  | inl more ↦
      let sooner : ltb (base + j) (base + jiffies) ≡ true = ground (arith, more, ticks.0) in
      rw (more, sooner)
        (ap (λ (l : List (ℕ × ℕ)). (base + j, g) ∷ l)
          (rw (passed base j jiffies (ground (arith, more)) lt) at (
            sift-dues (base + j) (sub32 jiffies j) fn next (ground (arith, more))
              (ground (arith, more)) ticks.1)))
  | inr less ↦
      let later : base + jiffies ≤ base + j = ground (arith, less, ticks.0) in
      let d : base + jiffies - base ≡ jiffies = omega arith in
      rw less (
        ap (λ (l : List (ℕ × ℕ)). (base + jiffies, fn) ∷ l)
          (dues-delay base jiffies ((j, g) ∷ next))
        ∙ sym (
            with_timer-late base (base + jiffies) fn j g next later
            ∙ ap (λ k. (base + jiffies, fn) ∷ delay k (dues base ((j, g) ∷ next))) d))
]

-- With a free slot, 0 < jiffies < 2^31 and the ticks of all timers below 2^31, add_timer calls
-- nothing; the timers due before jiffies keep their times, the new one comes behind them and is
-- due at jiffies, and each of the others is late by the ticks from the last one before it, or from
-- now, to the new one.
pub add_timer-dues :
    (jiffies fn : ℕ) (l : TimerList)
    → 0 < jiffies
    → jiffies < 2 ^ 31
    → length l < time_requests
    → AreTicks l
    → (t : TimerList) × (add_timer jiffies (some fn) l ≡ added t [])
      × (dues 0 t ≡ with_timer 0 jiffies fn (dues 0 l))
unfolding add_timer
add_timer-dues jiffies fn l pos lt room h =
    let e : 0 + jiffies ≡ jiffies = omega arith in
    (sift jiffies fn l, ground arith, rw e at (sift-dues 0 jiffies fn l pos lt h))
