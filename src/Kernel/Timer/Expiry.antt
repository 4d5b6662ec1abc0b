-- ===== src/Kernel/Timer/Expiry.antt =====
-- Which functions `do_timer` calls, over any number of ticks.
use linux_0_11_read.Prelude.{
  ℕ, zero, suc, ◌+◌, ◌^◌, ◌≤◌, ◌<◌, ◌≡◌, refl, sym, ◌∙◌, ap, List, [], ◌∷◌, ◌++◌, arith, sub32, leb,
  if◌then◌else◌, add-zero,
}
use linux_0_11_read.Kernel.Timer.{TimerList, expire, tick}
use linux_0_11_read.Kernel.Timer.Due.{dues, AreTicks}

-- The list that `n` ticks leave, and the functions called.
unfoldable pub ticks : ℕ → TimerList → TimerList × List ℕ
ticks zero l = (l, [])
ticks (suc n) l =
    let (l', called) = tick l in let (l'', later) = ticks n l' in (l'', called ++ later)

-- The functions of the timers that are due by a time.
pub due_by : ℕ → List (ℕ × ℕ) → List ℕ
due_by time [] = []
due_by time ((t, g) ∷ rest) = if leb t time then g ∷ due_by time rest else due_by time rest

-- No timer is left that should have been called.
abbrev pub IsAhead : TimerList → Type 0
IsAhead [] = Unit {0}
IsAhead ((j, g) ∷ next) = 0 < j

none_due : (base time : ℕ) (l : TimerList) → time < base → due_by time (dues base l) ≡ []
unfolding due_by dues
none_due base time [] lt = refl
none_due base time ((j, g) ∷ next) lt = ground (arith, none_due (base + j) time next)

none_due_yet : (base : ℕ) (l : TimerList) → IsAhead l → due_by base (dues base l) ≡ []
unfolding due_by dues
none_due_yet base [] h = refl
none_due_yet base ((j, g) ∷ next) h = ground (arith, none_due (base + j) base next)

-- The timers that expire at `base` are called, and the rest are ahead.
expire-due_by :
    (base time : ℕ) (l : TimerList)
    → base ≤ time
    → AreTicks l
    → let (rest, called) = expire l in
      (due_by time (dues base l) ≡ called ++ due_by time (dues base rest))
      × IsAhead rest
      × AreTicks rest
unfolding expire due_by dues
expire-due_by base time [] le h = (refl, tt, tt)
expire-due_by base time ((zero, g) ∷ next) le h =
    ground (arith, add-zero base, expire-due_by base time next le h.1)
expire-due_by base time ((suc j, g) ∷ next) le h = ground arith

dues-earlier :
    (base j g : ℕ) (next : TimerList)
    → 0 < j
    → j < 2 ^ 31
    → dues base ((j, g) ∷ next) ≡ dues (base + 1) ((sub32 j 1, g) ∷ next)
unfolding dues
dues-earlier base j g next pos lt =
    let e : base + 1 + sub32 j 1 ≡ base + j = omega arith in rw e refl

dues-nil : (a b : ℕ) → dues a [] ≡ dues b []
unfolding dues
dues-nil a b = refl

-- One tick calls what is due after it, and what is left is ahead.
tick-due_by :
    (base time : ℕ) (l : TimerList)
    → base < time
    → IsAhead l
    → AreTicks l
    → let (rest, called) = tick l in
      (due_by time (dues base l) ≡ called ++ due_by time (dues (base + 1) rest))
      × IsAhead rest
      × AreTicks rest
unfolding tick
tick-due_by base time [] lt h t = (ap (due_by time) (dues-nil base (base + 1)), tt, tt)
tick-due_by base time ((j, g) ∷ next) lt h t =
    rw (dues-earlier base j g next h t.0)
      (expire-due_by (base + 1) time ((sub32 j 1, g) ∷ next) (omega arith) (omega arith, t.1))

ticks-due_by :
    (n base : ℕ) (l : TimerList)
    → IsAhead l
    → AreTicks l
    → (ticks n l).1 ≡ due_by (base + n) (dues base l)
unfolding ticks
ticks-due_by zero base l h t = rw (add-zero base) (sym (none_due_yet base l h))
ticks-due_by (suc n) base l h t =
    let (here, ahead, small) = tick-due_by base (base + suc n) l (omega arith) h t in
    let e : base + 1 + n ≡ base + suc n = omega arith in
    ap (λ (c : List ℕ). (tick l).1 ++ c)
      (rw e at (ticks-due_by n (base + 1) (tick l).0 ahead small))
    ∙ sym here

-- Over n ticks the timer part of do_timer calls exactly the functions of the timers that are due
-- within them, in their order, if each timer has ticks below 2^31 and the first has some left.
pub ticks_lem :
    (n : ℕ) (l : TimerList) → IsAhead l → AreTicks l → (ticks n l).1 ≡ due_by n (dues 0 l)
ticks_lem n l h t = let e : 0 + n ≡ n = omega arith in rw e at (ticks-due_by n 0 l h t)
