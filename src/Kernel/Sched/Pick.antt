-- ===== src/Kernel/Sched/Pick.antt =====
-- The scan of the task table: the runnable task with the largest counter.
use linux_0_11_read.Prelude.{
  ℕ, zero, suc, ◌+◌, ◌%◌, ◌^◌, ◌≤◌, ◌<◌, ◌≡◌, ◌⊎◌, ◌&&◌, inl, inr, refl, ◌∙◌, some, arith, slt,
  ◌==◌, Bool-cases, Option-cases, lt_suc-cases,
}
use linux_0_11_read.Kernel.Sched.{Task, Tasks, task_running, slot, consider, pick}

-- Signed words in the order of these numbers.
abbrev pub bias : ℕ → ℕ
bias c = (c + 2 ^ 31) % 2 ^ 32

-- Task `j` of the table, other than the first, is runnable.
pub record Runnable (ts : Tasks) (j : ℕ) (p : Task) : Type 0 where
  pub is_there : slot ts j ≡ some p
  pub running : p.state ≡ task_running

-- The result of a scan of the indices 1 to `n` that starts with `best`.
pub record Scanned (ts : Tasks) (n : ℕ) (best : ℕ × ℕ) (r : ℕ × ℕ) : Type 0 where
  pub rises : bias best.0 ≤ bias r.0
  pub most : (j : ℕ) (p : Task) → 1 ≤ j → j ≤ n → Runnable ts j p → bias p.counter ≤ bias r.0
  pub who :
      (r ≡ best)
      ⊎ ((1 ≤ r.1)
          × (r.1 ≤ n)
          × (bias best.0 < bias r.0)
          × ((p : Task) × Runnable ts r.1 p × (p.counter ≡ r.0))
          × ((j : ℕ) (q : Task) → r.1 < j → j ≤ n → Runnable ts j q → bias q.counter < bias r.0))

-- One test turned `best` into `next`.
record Tested (ts : Tasks) (i : ℕ) (best next : ℕ × ℕ) : Type 0 where
  rises : bias best.0 ≤ bias next.0
  above : (p : Task) → Runnable ts i p → bias p.counter ≤ bias next.0
  origin :
      (next ≡ best)
      ⊎ ((bias best.0 < bias next.0)
          × (next.1 ≡ i)
          × ((p : Task) × Runnable ts i p × (p.counter ≡ next.0)))

consider-Tested :
    (ts : Tasks) (i : ℕ) (best : ℕ × ℕ) → Tested ts i best (consider (slot ts i) i best)
unfolding consider
consider-Tested ts i best = elim (Option-cases (slot ts i)) [
  | inl e ↦ rw e record {
    rises = omega arith;
    above = λ p run. absurd (ground (arith, run.is_there, e));
    origin = inl refl;
  }
  | inr (p, e) ↦ elim (Bool-cases (p.state == task_running && slt best.0 p.counter)) [
    | inl wins ↦
        rw (e, wins)
          record {
            rises = ground arith;
            above = λ q run. ground (arith, run.is_there, e);
            origin =
                inr
                  (ground arith, refl, (p, record { is_there = e; running = ground arith }, refl));
          }
    | inr loses ↦
        rw (e, loses)
          record {
            rises = omega arith;
            above = λ q run. ground (arith, run.is_there, run.running, e);
            origin = inl refl;
          }
  ]
]

Scanned-suc :
    (ts : Tasks) (n : ℕ) (best next r : ℕ × ℕ)
    → Tested ts (suc n) best next
    → Scanned ts n next r
    → Scanned ts (suc n) best r
Scanned-suc ts n best next r t h = record {
  rises = omega (arith, t.rises, h.rises);
  most = λ j p one le run. elim (lt_suc-cases j (suc n) (omega arith)) [
    | inl at_n ↦ omega (arith, t.above p (rw at_n at run), h.rises)
    | inr below ↦ h.most j p one (omega arith) run
  ];
  who = elim h.who [
    | inl same ↦ elim t.origin [
      | inl kept ↦ inl (same ∙ kept)
      | inr (more, at_n, found) ↦ rw same (
          inr (
            omega (arith, at_n),
            omega (arith, at_n),
            more,
            rw at_n found,
            λ j q lt le run. absurd (omega (arith, at_n)),
          ))
    ]
    | inr (one, le, more, found, last) ↦ inr (
      one,
      omega arith,
      omega (arith, t.rises),
      found,
      λ j q lt le' run. elim (lt_suc-cases j (suc n) (omega arith)) [
        | inl at_n ↦ omega (arith, t.above q (rw at_n at run))
        | inr below ↦ last j q lt (omega arith) run
      ],
    )
  ];
}

-- The scan finds the runnable task with the largest counter, if that is larger than the one that
-- the scan starts with; of several the one with the highest index.
pub pick-Scanned : (ts : Tasks) (n : ℕ) (best : ℕ × ℕ) → Scanned ts n best (pick ts n best)
unfolding pick
pick-Scanned ts zero best = record {
  rises = omega arith;
  most = λ j p one le run. absurd (omega arith);
  who = inl refl;
}
pick-Scanned ts (suc n) best =
    Scanned-suc ts n best (consider (slot ts (suc n)) (suc n) best) _
      (consider-Tested ts (suc n) best)
      (pick-Scanned ts n (consider (slot ts (suc n)) (suc n) best))
