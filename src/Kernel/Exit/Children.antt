-- ===== src/Kernel/Exit/Children.antt =====
-- What the scan of the table in `sys_waitpid` says of the children.
use linux_0_11_read.Prelude.{
  ℕ, zero, suc, ◌≤◌, ◌≡◌, ◌≢◌, ◌⊎◌, inl, inr, refl, sym, some, Bool, true, false, not, ◌||◌, ◌==◌,
  arith, lt_suc-cases, Bool-cases, Option-cases,
}
use linux_0_11_read.Kernel.Process.{Process, Processes, process_at}
use linux_0_11_read.Kernel.Exit.{
  is_awaited, task_zombie, task_stopped, Scan, stopped_at, zombie_at, scanned, wait_loop,
}

-- A child that `pid` asks for, in entry `i` of the table.
pub record IsChild (me : Process) (pid : ℕ) (s : Processes) (i : ℕ) (p : Process) : Type 0 where
  pub from : 1 ≤ i
  pub here : process_at s i ≡ some p
  pub other : s.current ≢ i
  pub awaited : is_awaited me pid p ≡ true

-- Some child that `pid` asks for, in the entries 1 to `n`, is neither stopped nor a zombie.
abbrev pub RunsChild : Process → ℕ → Processes → ℕ → Type 0
RunsChild me pid s n =
    (j : ℕ) × (p : Process) × (j ≤ n)
    × IsChild me pid s j p
    × (p.state ≢ task_stopped)
    × (p.state ≢ task_zombie)

-- What the end of a scan of the entries 1 to `n` says.
unfoldable pub Ends : Process → ℕ → Bool → Processes → ℕ → Bool → Scan → Type 0
Ends me pid untraced s n flag (stopped_at i) =
    (i ≤ n) × (untraced ≡ true) × (p : Process) × IsChild me pid s i p × (p.state ≡ task_stopped)
Ends me pid untraced s n flag (zombie_at i) =
    (i ≤ n) × (p : Process) × IsChild me pid s i p × (p.state ≡ task_zombie)
Ends me pid untraced s n flag (scanned b) =
    ((j : ℕ) (p : Process) → j ≤ n → IsChild me pid s j p → p.state ≢ task_zombie)
    × (b ≡ false → flag ≡ false)
    × (b ≡ true → flag ≡ true ⊎ RunsChild me pid s n)
    × (b ≡ false
        → (j : ℕ) (p : Process) → j ≤ n
        → IsChild me pid s j p
        → (p.state ≡ task_stopped) × (untraced ≡ false))

-- One entry that the scan passes over.
later :
    (me : Process) (pid : ℕ) (untraced : Bool) (s : Processes) (n : ℕ) (flag now : Bool)
    (end : Scan)
    → (now ≡ false → flag ≡ false)
    → ((p : Process)
        → IsChild me pid s (suc n) p
        → (p.state ≢ task_zombie) × (now ≡ false → (p.state ≡ task_stopped) × (untraced ≡ false)))
    → (now ≡ true → flag ≡ true ⊎ RunsChild me pid s (suc n))
    → Ends me pid untraced s n now end
    → Ends me pid untraced s (suc n) flag end
unfolding Ends
later me pid untraced s n flag now (stopped_at i) back passed runs (le, u, p, k, e) =
    (omega (arith, le), u, p, k, e)
later me pid untraced s n flag now (zombie_at i) back passed runs (le, p, k, e) =
    (omega (arith, le), p, k, e)
later me pid untraced s n flag now (scanned b) back passed runs (a, f, g, c) = (
  λ j p le k. elim (lt_suc-cases j (suc n) (omega (arith, le))) [
    | inl last ↦ (passed p (rw last at k)).0
    | inr below ↦ a j p (omega (arith, below)) k
  ],
  λ e. back (f e),
  λ e. elim (g e) [
    | inl now_on ↦ runs now_on
    | inr (j, p, le, k, u, v) ↦ inr (j, p, omega (arith, le), k, u, v)
  ],
  λ e j p le k. elim (lt_suc-cases j (suc n) (omega (arith, le))) [
    | inl last ↦ (passed p (rw last at k)).1 (f e)
    | inr below ↦ c e j p (omega (arith, below)) k
  ],
)

same_entry :
    (me : Process) (pid : ℕ) (s : Processes) (i : ℕ) (p q : Process)
    → process_at s i ≡ some p
    → IsChild me pid s i q
    → p ≡ q
same_entry me pid s i p q e k = let h = k.here in cc

not_child :
    (me : Process) (pid : ℕ) (s : Processes) (i : ℕ) (p q : Process)
    → process_at s i ≡ some p
    → IsChild me pid s i q
    → ((s.current == i) || not (is_awaited me pid p)) ≢ true
not_child me pid s i p q e k skip =
    let same = same_entry me pid s i p q e k in
    k.other (ground (arith, skip, rw (sym same) at k.awaited))

child :
    (me : Process) (pid : ℕ) (s : Processes) (n : ℕ) (p : Process)
    → process_at s (suc n) ≡ some p
    → ((s.current == suc n) || not (is_awaited me pid p)) ≡ false
    → IsChild me pid s (suc n) p
child me pid s n p e mine = record {
  from = omega arith;
  here = e;
  other = ground (arith, mine);
  awaited = ground (arith, mine);
}

pub wait_loop-Ends :
    (me : Process) (pid : ℕ) (untraced : Bool) (s : Processes) (n : ℕ) (flag : Bool)
    → Ends me pid untraced s n flag (wait_loop me pid untraced s n flag)
unfolding wait_loop Ends
wait_loop-Ends me pid untraced s zero flag = (
  λ j p le k. absurd (omega (arith, le, k.from)),
  λ e. e,
  λ e. inl e,
  λ e j p le k. absurd (omega (arith, le, k.from)),
)
wait_loop-Ends me pid untraced s (suc n) flag = elim (Option-cases (process_at s (suc n))) [
  | inl e ↦
      rw (e, wait_loop)
        (later me pid untraced s n flag flag _ (λ x. x) (λ q k. absurd (ground (arith, e, k.here)))
          inl (wait_loop-Ends me pid untraced s n flag))
  | inr (p, e) ↦ elim (Bool-cases ((s.current == suc n) || not (is_awaited me pid p))) [
    | inl skip ↦
        rw (e, skip, wait_loop)
          (later me pid untraced s n flag flag _ (λ x. x)
            (λ q k. absurd (not_child me pid s (suc n) p q e k skip)) inl
            (wait_loop-Ends me pid untraced s n flag))
    | inr mine ↦ elim (Bool-cases (p.state == task_stopped)) [
      | inl st ↦ elim (Bool-cases untraced) [
        | inl u ↦
            rw (e, mine, st, u, wait_loop)
              (omega arith, refl, p, child me pid s n p e mine, ground (arith, st))
        | inr u ↦ rw u (
            rw (e, mine, st, wait_loop)
              (later me pid false s n flag flag _ (λ x. x)
                (λ q k.
                  rw (sym (same_entry me pid s (suc n) p q e k))
                    (ground (arith, st), λ _. (ground (arith, st), refl)))
                inl (wait_loop-Ends me pid false s n flag)))
      ]
      | inr run ↦ elim (Bool-cases (p.state == task_zombie)) [
        | inl z ↦
            rw (e, mine, run, z, wait_loop)
              (omega arith, p, child me pid s n p e mine, ground (arith, z))
        | inr z ↦
            rw (e, mine, run, z, wait_loop)
              (later me pid untraced s n flag true _ (λ x. absurd (ground (arith, x)))
                (λ q k.
                  rw (sym (same_entry me pid s (suc n) p q e k))
                    (ground (arith, z), λ x. absurd (ground (arith, x))))
                (λ _. inr (
                  suc n,
                  p,
                  omega arith,
                  child me pid s n p e mine,
                  ground (arith, run),
                  ground (arith, z),
                ))
                (wait_loop-Ends me pid untraced s n true))
      ]
    ]
  ]
]
