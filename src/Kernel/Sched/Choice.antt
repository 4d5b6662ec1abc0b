-- ===== src/Kernel/Sched/Choice.antt =====
-- `schedule` chooses, and it takes two rounds at most.
use linux_0_11_read.Prelude.{
  ℕ, zero, suc, ◌-◌, ◌^◌, ◌≤◌, ◌<◌, ◌≡◌, ◌≢◌, ◌⊎◌, inl, inr, refl, ◌∙◌, ap, [], ◌∷◌, map, some,
  arith, minus_one, Option-cases, ==-ne, ℕ_discrete,
}
use linux_0_11_read.Kernel.Sched.{
  Task, Tasks, nr_tasks, slot, check_alarm, check_signal, on_task, for_tasks, pick, refill, choose,
  schedule,
}
use linux_0_11_read.Kernel.Sched.Pick.{bias, Runnable, Scanned, pick-Scanned}

-- No sum of a counter and a priority overflows, and no priority is 0.
pub record IsTask (p : Task) : Type 0 where
  pub counter_to : p.counter < 2 ^ 30
  pub priority_from : 0 < p.priority
  pub priority_to : p.priority < 2 ^ 29

-- What holds of the tasks other than the first.
pub record AreTasks (ts : Tasks) : Type 0 where
  pub each : (j : ℕ) (p : Task) → 1 ≤ j → slot ts j ≡ some p → IsTask p

-- `next` is what `schedule` promises: the idle task if no other can run, or else a task that can,
-- with time left, the most of all and the highest index of those with as much.
pub record IsChosen (ts : Tasks) (next : ℕ) (p : Task) : Type 0 where
  pub from : 1 ≤ next
  pub to : next < nr_tasks
  pub can_run : Runnable ts next p
  pub time_left : 0 < p.counter
  pub most : (j : ℕ) (q : Task) → 1 ≤ j → j < nr_tasks → Runnable ts j q → q.counter ≤ p.counter
  pub highest :
      (j : ℕ) (q : Task) → next < j → j < nr_tasks → Runnable ts j q → q.counter < p.counter

abbrev pub IsIdle : Tasks → Type 0
IsIdle ts = (j : ℕ) (p : Task) → 1 ≤ j → j < nr_tasks → ¬ Runnable ts j p

slot-map :
    (f : Task → Task) (ts : Tasks) (j : ℕ) → slot (map (on_task f) ts) j ≡ on_task f (slot ts j)
slot-map f [] j = refl
slot-map f (o ∷ ts) zero = refl
slot-map f (o ∷ ts) (suc j) = slot-map f ts j

slot-for_tasks :
    (f : Task → Task) (ts : Tasks) (j : ℕ) → 1 ≤ j → slot (for_tasks f ts) j ≡ on_task f (slot ts j)
unfolding for_tasks
slot-for_tasks f [] j one = refl
slot-for_tasks f (first ∷ ts) zero one = elim one [ ]
slot-for_tasks f (first ∷ ts) (suc j) one = slot-map f ts j

slot-for_tasks_inv :
    (f : Task → Task) (ts : Tasks) (j : ℕ) (q : Task)
    → 1 ≤ j
    → slot (for_tasks f ts) j ≡ some q
    → (p : Task) × (slot ts j ≡ some p) × (q ≡ f p)
slot-for_tasks_inv f ts j q one e = elim (Option-cases (slot ts j)) [
  | inl n ↦ absurd (ground (arith, slot-for_tasks f ts j one))
  | inr (p, h) ↦ (p, h, ground (arith, slot-for_tasks f ts j one))
]

for_tasks-AreTasks :
    (f : Task → Task)
    → ((p : Task) → IsTask p → IsTask (f p))
    → (ts : Tasks) → AreTasks ts
    → AreTasks (for_tasks f ts)
for_tasks-AreTasks f keep ts v = record {
  each = λ j q one e.
      let (p, h, at_p) = slot-for_tasks_inv f ts j q one e in rw at_p (keep p (v.each j p one h));
}

refill-IsTask : (p : Task) → IsTask p → IsTask (refill p)
unfolding refill
refill-IsTask p v = ground arith

refill_pos : (p : Task) → IsTask p → 0 < (refill p).counter
unfolding refill
refill_pos p v = ground arith

-- A scan that starts with -1 found no runnable task, or one that has the most time left.
record Found (ts : Tasks) (r : ℕ × ℕ) (p : Task) : Type 0 where
  can_run : Runnable ts r.1 p
  counter_of : p.counter ≡ r.0
  small : r.0 < 2 ^ 30
  from : 1 ≤ r.1
  to : r.1 < nr_tasks
  most : (j : ℕ) (q : Task) → 1 ≤ j → j < nr_tasks → Runnable ts j q → q.counter ≤ r.0
  highest : (j : ℕ) (q : Task) → r.1 < j → j < nr_tasks → Runnable ts j q → q.counter < r.0

scan_cases :
    (ts : Tasks) (r : ℕ × ℕ)
    → AreTasks ts
    → Scanned ts (nr_tasks - 1) (minus_one, 0) r
    → ((r ≡ (minus_one, 0)) × IsIdle ts) ⊎ ((p : Task) × Found ts r p)
scan_cases ts r v h = elim h.who [
  | inl same ↦ inl (
    same,
    λ j p one lt run. omega (
      arith,
      h.most j p one (omega arith) run,
      (v.each j p one run.is_there).counter_to,
      ap (λ (x : ℕ × ℕ). bias x.0) same,
    ),
  )
  | inr (one, le, more, (p, run, e), last) ↦ inr (
    p,
    record {
      can_run = run;
      counter_of = e;
      small = omega (arith, (v.each r.1 p one run.is_there).counter_to, e);
      from = one;
      to = omega (arith, le);
      most = λ j q one_j lt run_j. omega (
        arith,
        e,
        h.most j q one_j (omega arith) run_j,
        (v.each j q one_j run_j.is_there).counter_to,
        (v.each r.1 p one run.is_there).counter_to,
      );
      highest = λ j q above lt run_j. omega (
        arith,
        e,
        last j q above (omega arith) run_j,
        (v.each j q (omega arith) run_j.is_there).counter_to,
        (v.each r.1 p one run.is_there).counter_to,
      );
    },
  )
]

state-refill : (p : Task) → (refill p).state ≡ p.state
unfolding refill
state-refill p = refl

check_alarm-IsTask : (jiffies : ℕ) (p : Task) → IsTask p → IsTask (check_alarm jiffies p)
unfolding check_alarm
check_alarm-IsTask jiffies p v = ground arith

check_signal-IsTask : (p : Task) → IsTask p → IsTask (check_signal p)
unfolding check_signal
check_signal-IsTask p v = ground arith

checked-IsTask : (jiffies : ℕ) (p : Task) → IsTask p → IsTask (check_signal (check_alarm jiffies p))
checked-IsTask jiffies p v =
    check_signal-IsTask (check_alarm jiffies p) (check_alarm-IsTask jiffies p v)

-- The outcome of `choose`.
abbrev IsChoice : ℕ × Tasks → Type 0
IsChoice r = ((r.0 ≡ 0) × IsIdle r.1) ⊎ ((p : Task) × IsChosen r.1 r.0 p)

-- A round that ends the loop.
choose-stops :
    (fuel : ℕ) (ts : Tasks)
    → (pick ts (nr_tasks - 1) (minus_one, 0)).0 ≢ 0
    → choose (suc fuel) ts ≡ some ((pick ts (nr_tasks - 1) (minus_one, 0)).1, ts)
unfolding choose
choose-stops fuel ts ne = rw (==-ne _ 0 ne, choose) refl

choose-repeats :
    (fuel : ℕ) (ts : Tasks)
    → (pick ts (nr_tasks - 1) (minus_one, 0)).0 ≡ 0
    → choose (suc fuel) ts ≡ choose fuel (for_tasks refill ts)
unfolding choose
choose-repeats fuel ts z = rw (z, choose) refl

Found-IsChoice : (ts : Tasks) (r : ℕ × ℕ) (p : Task) → Found ts r p → r.0 ≢ 0 → IsChoice (r.1, ts)
Found-IsChoice ts r p f ne = inr (
  p,
  record {
    from = f.from;
    to = f.to;
    can_run = f.can_run;
    time_left = omega (arith, f.counter_of);
    most = λ j q one lt run. omega (arith, f.counter_of, f.most j q one lt run);
    highest = λ j q above lt run. omega (arith, f.counter_of, f.highest j q above lt run);
  },
)

-- After a refill the task that had the most time has some, so the next scan stops the loop.
refilled-Found :
    (ts : Tasks) (r r' : ℕ × ℕ) (p q : Task)
    → AreTasks ts
    → Found ts r p
    → Found (for_tasks refill ts) r' q
    → r'.0 ≢ 0
refilled-Found ts r r' p q v f f' z =
    let at : slot (for_tasks refill ts) r.1 ≡ some (refill p) =
      slot-for_tasks refill ts r.1 f.from ∙ ap (on_task refill) f.can_run.is_there in
    let run : Runnable (for_tasks refill ts) r.1 (refill p) = record {
      is_there = at;
      running = state-refill p ∙ f.can_run.running;
    } in
    omega (
      arith,
      refill_pos p (v.each r.1 p f.from f.can_run.is_there),
      f'.most r.1 (refill p) f.from f.to run,
    )

abbrev scan_all : Tasks → ℕ × ℕ
scan_all ts = pick ts (nr_tasks - 1) (minus_one, 0)

-- A scan that does not end with 0 has found what `schedule` promises.
scan_all-IsChoice :
    (ts : Tasks) → AreTasks ts → (scan_all ts).0 ≢ 0 → IsChoice ((scan_all ts).1, ts)
scan_all-IsChoice ts v ne =
    elim (scan_cases ts (scan_all ts) v (pick-Scanned ts (nr_tasks - 1) (minus_one, 0))) [
      | inl (same, idle) ↦ inl (ap (λ (x : ℕ × ℕ). x.1) same, idle)
      | inr (p, f) ↦ Found-IsChoice ts (scan_all ts) p f ne
    ]

-- A scan that ends with 0 ends with another number after a refill.
refilled_ne_zero :
    (ts : Tasks) → AreTasks ts → (scan_all ts).0 ≡ 0 → (scan_all (for_tasks refill ts)).0 ≢ 0
refilled_ne_zero ts v z =
    elim (scan_cases ts (scan_all ts) v (pick-Scanned ts (nr_tasks - 1) (minus_one, 0))) [
      | inl (same, idle) ↦ absurd (omega (arith, ap (λ (x : ℕ × ℕ). x.0) same))
      | inr (p, f) ↦
          elim (scan_cases ts' (scan_all ts') (for_tasks-AreTasks refill refill-IsTask ts v)
            (pick-Scanned ts' (nr_tasks - 1) (minus_one, 0))) [
              | inl (same, idle) ↦ λ z'. omega (arith, ap (λ (x : ℕ × ℕ). x.0) same)
              | inr (q, f') ↦ refilled-Found ts (scan_all ts) (scan_all ts') p q v f f'
            ]
    ]
  where
    ts' : Tasks
    ts' = for_tasks refill ts

choose_lem :
    (fuel : ℕ) (ts : Tasks)
    → AreTasks ts
    → (r : ℕ × Tasks) × (choose (suc (suc fuel)) ts ≡ some r) × IsChoice r
choose_lem fuel ts v = elim (ℕ_discrete (scan_all ts).0 0) [
  | no ne ↦ (((scan_all ts).1, ts), choose-stops (suc fuel) ts ne, scan_all-IsChoice ts v ne)
  | yes z ↦
      let ts' = for_tasks refill ts in
      let ne = refilled_ne_zero ts v z in
      (
        ((scan_all ts').1, ts'),
        choose-repeats (suc fuel) ts z ∙ choose-stops fuel ts' ne,
        scan_all-IsChoice ts' (for_tasks-AreTasks refill refill-IsTask ts v) ne,
      )
]

-- schedule ends in two rounds at most, for every table whose tasks but the first have counters
-- below 2^30 and priorities above 0 and below 2^29, and gives switch_to the idle task if no other
-- task is runnable, or else a runnable task with time left, the most of all, and the highest index
-- of those with as much.
pub schedule-IsChoice :
    (fuel jiffies : ℕ) (ts : Tasks)
    → AreTasks ts
    → (next : ℕ) × (ts' : Tasks) × (schedule (suc (suc fuel)) jiffies ts ≡ some (next, ts'))
      × (((next ≡ 0) × IsIdle ts') ⊎ ((p : Task) × IsChosen ts' next p))
unfolding schedule
schedule-IsChoice fuel jiffies ts v =
    let (r, e, c) = choose_lem fuel (for_tasks (λ p. check_signal (check_alarm jiffies p)) ts) (
      for_tasks-AreTasks (λ p. check_signal (check_alarm jiffies p)) (checked-IsTask jiffies) ts
        v) in
    (r.0, r.1, e, c)
