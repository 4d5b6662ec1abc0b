-- ===== src/Kernel/Wait/Lost.antt =====
-- No sleeper of `sleep_on` is lost.
use linux_0_11_read.Prelude.{
  ℕ, zero, suc, ◌+◌, ◌≤◌, ◌<◌, ◌≡◌, ◌≢◌, ◌⊎◌, inl, inr, refl, Option, none, some, ◌==◌, arith,
  ℕ_discrete, Option-cases, Bool-cases, subst, done,
}
use linux_0_11_read.Kernel.Sched.{task_running}
use linux_0_11_read.Kernel.Wait.{
  task_uninterruptible, Waiting, put, fall_asleep, sleep_on, wake_next, wake_up,
}

-- Tasks that sleep, go on and wake the others, in any order.
pub data Runs (start : Waiting) : Waiting → Type 0 where
  begins : Runs start start
  sleeps :
      {s t : Waiting}
      → Runs start s
      → (i : ℕ) → s.tmp i ≡ none
      → sleep_on i s ≡ done tt t
      → Runs start t
  goes_on :
      {s : Waiting}
      → Runs start s
      → (i : ℕ) (tmp : Option ℕ) → s.tmp i ≡ some tmp
      → s.state i ≡ task_running
      → Runs start (wake_next i tmp s)
  wakes : {s : Waiting} → Runs start s → Runs start (wake_up s)

-- A task behind which `i` was put: it is in its sleep, and its `tmp` is `i`.
abbrev IsBehind : (ℕ → ℕ) → Waiting → ℕ → ℕ → Type 0
IsBehind rank s i k = (s.tmp k ≡ some (some i)) × (rank i < rank k)

-- Each task in state 2 is first or behind another one, where a later one has a higher rank.
pub record IsLinked (s : Waiting) : Type 0 where
  pub rank : ℕ → ℕ
  pub clock : ℕ
  pub ranked : (i : ℕ) → s.tmp i ≢ none → rank i < clock
  pub linked :
      (i : ℕ)
      → s.tmp i ≢ none
      → s.state i ≢ task_running
      → (s.first ≡ some i) ⊎ ((k : ℕ) × IsBehind rank s i k)

sleep_on-IsLinked :
    (i : ℕ) (s : Waiting)
    → s.tmp i ≡ none
    → IsLinked s
    → IsLinked (fall_asleep task_uninterruptible i s)
sleep_on-IsLinked i s awake v = record {
  rank = put v.rank i v.clock;
  clock = v.clock + 1;
  ranked = λ j inside. ground (arith, v.ranked j);
  linked = λ j inside asleep. elim (ℕ_discrete j i) [
    | yes e ↦ inl (rw e refl)
    | no ne ↦ elim (v.linked j (ground (arith, ne, inside)) (ground (arith, ne, asleep))) [
      | inl first ↦ inr (i, (ground (arith, first), ground (arith, ne, v.ranked j, inside)))
      | inr (k, (behind, up)) ↦
          inr (k, (ground (arith, behind, awake), ground (arith, ne, behind, awake, up)))
    ]
  ];
}

wake_next-IsLinked :
    (i : ℕ) (tmp : Option ℕ) (s : Waiting)
    → s.tmp i ≡ some tmp
    → IsLinked s
    → IsLinked (wake_next i tmp s)
unfolding wake_next
wake_next-IsLinked i none s here v = record {
  rank = v.rank;
  clock = v.clock;
  ranked = λ j inside. v.ranked j (ground (arith, inside));
  linked = λ j inside asleep. elim (v.linked j (ground (arith, inside)) asleep) [
    | inl first ↦ inl first
    | inr (k, (behind, up)) ↦ inr (k, (ground (arith, behind, here), up))
  ];
}
wake_next-IsLinked i (some n) s here v = record {
  rank = v.rank;
  clock = v.clock;
  ranked = λ j inside. v.ranked j (ground (arith, inside));
  linked = λ j inside asleep. elim (v.linked j (ground (arith, inside)) (ground (arith, asleep))) [
    | inl first ↦ inl first
    | inr (k, (behind, up)) ↦ inr (k, (ground (arith, behind, here, asleep), up))
  ];
}

wake_up-IsLinked : (s : Waiting) → IsLinked s → IsLinked (wake_up s)
unfolding wake_up
wake_up-IsLinked s v = elim (Option-cases s.first) [
  | inl e ↦ subst IsLinked (ground (arith, e)) v
  | inr (f, e) ↦ rw e (record {
    rank = v.rank;
    clock = v.clock;
    ranked = v.ranked;
    linked = λ j inside asleep. elim (v.linked j inside (ground (arith, asleep))) [
      | inl first ↦ absurd (asleep (ground (arith, first, e)))
      | inr behind ↦ inr behind
    ];
  })
]

Runs-IsLinked : {start s : Waiting} → IsLinked start → Runs start s → IsLinked s
unfolding sleep_on
Runs-IsLinked v begins = v
Runs-IsLinked v (sleeps {s} {t} r i awake e) =
    let now = sleep_on-IsLinked i s awake (Runs-IsLinked v r) in
    elim (Bool-cases (i == 0)) [
      | inl idle ↦ absurd (ground (arith, rw (idle, sleep_on) at e))
      | inr other ↦ subst IsLinked (ground (arith, rw (other, sleep_on) at e)) now
    ]
Runs-IsLinked v (goes_on {s} r i tmp here running) =
    wake_next-IsLinked i tmp s here (Runs-IsLinked v r)
Runs-IsLinked v (wakes {s} r) = wake_up-IsLinked s (Runs-IsLinked v r)

-- Nobody waits for a task that is not there.
none_asleep :
    (n : ℕ) (s : Waiting) (v : IsLinked s)
    → s.first ≡ none
    → ((i : ℕ) → s.tmp i ≢ none → s.state i ≢ task_running)
    → (i : ℕ) → v.clock ≤ n + v.rank i
    → s.tmp i ≡ none
none_asleep zero s v empty idle i h = elim (Option-cases (s.tmp i)) [
  | inl e ↦ e
  | inr (t, e) ↦ absurd (ground (arith, h, v.ranked i, e))
]
none_asleep (suc n) s v empty idle i h = elim (Option-cases (s.tmp i)) [
  | inl e ↦ e
  | inr (t, e) ↦
      let inside : s.tmp i ≢ none = λ x. cc in
      elim (v.linked i inside (idle i inside)) [
        | inl first ↦ cc
        | inr (k, (behind, up)) ↦
            let gone = none_asleep n s v empty idle k (omega (arith, h, up)) in cc
      ]
]

-- No sleeper of sleep_on is lost: from a queue that no task sleeps in, after any order of
-- sleep_on, of its part behind schedule and of wake_up, once the queue is empty and no task in it
-- is ready to run, no task is inside it any more.
pub Runs-none_asleep :
    {start s : Waiting}
    → ((i : ℕ) → start.tmp i ≡ none)
    → Runs start s
    → s.first ≡ none
    → ((i : ℕ) → s.tmp i ≢ none → s.state i ≢ task_running)
    → (i : ℕ) → s.tmp i ≡ none
Runs-none_asleep {start} {s} fresh r empty idle i =
    none_asleep v.clock s v empty idle i (omega arith)
  where
    v : IsLinked s
    v =
        Runs-IsLinked
          (record {
            rank = λ j. 0;
            clock = 0;
            ranked = λ j inside. absurd (inside (fresh j));
            linked = λ j inside. absurd (inside (fresh j));
          })
          r
