-- ===== src/Kernel/Exit/Send.antt =====
-- A loop that sends a signal, entry by entry.
use linux_0_11_read.Prelude.{
  ℕ, zero, suc, ◌-◌, ◌≤◌, ◌<◌, ◌≡◌, ◌≢◌, ◌⊎◌, inl, inr, refl, sym, ◌∙◌, ap, Option-cases, Option,
  none, some, Bool, true, false, not, ◌&&◌, ◌||◌, ◌==◌, if◌then◌else◌, arith, lt_suc-cases,
  Bool-cases, length, length-set, get_or-set_self, get_or-set_ne,
}
use linux_0_11_read.Kernel.Process.{Process, Processes, process_at, suser, set_bit}
use linux_0_11_read.Kernel.Exit.{put_process, is_bad_signal, send_sig, send_loop}

-- A process may send a signal to another one of its user, and the superuser to all; a signal to the
-- own group needs no permission.
abbrev pub may_send : Process → ℕ → Process → Bool → Bool
may_send me sig p priv = not (is_bad_signal sig) && (priv || (me.euid == p.euid) || suser me)

-- What a signal to the processes `who` makes of one entry of the table.
abbrev pub after_kill : Process → ℕ → Bool → (Process → Bool) → Option Process → Option Process
after_kill me sig priv who none = none
after_kill me sig priv who (some p) =
    if who p && may_send me sig p priv
    then some (record p { signal = set_bit p.signal (sig - 1) })
    else some p

-- The entries from 1 to `n` of `s` have changed, each by itself, and `who` is asked at its number.
pub record Sent (me : Process) (sig : ℕ) (priv : Bool) (who : ℕ → Process → Bool) (n retval : ℕ)
    (s : Processes) (result : ℕ) (t : Processes) : Type 0 where
  pub changed :
      (j : ℕ) → 1 ≤ j → j ≤ n → process_at t j ≡ after_kill me sig priv (who j) (process_at s j)
  pub kept : (j : ℕ) → j < 1 ⊎ n < j → process_at t j ≡ process_at s j
  pub size : length t.task ≡ length s.task
  pub from_zero : result ≡ 0 → retval ≡ 0
  pub all_sent :
      result ≡ 0
      → (j : ℕ) (p : Process) → 1 ≤ j
      → j ≤ n
      → process_at s j ≡ some p
      → who j p ≡ true
      → may_send me sig p priv ≡ true

pub after_kill-same :
    (me : Process) (sig : ℕ) (priv : Bool) (who also : Process → Bool) (o : Option Process)
    → ((p : Process) → o ≡ some p → who p ≡ also p)
    → after_kill me sig priv who o ≡ after_kill me sig priv also o
after_kill-same me sig priv who also none e = refl
after_kill-same me sig priv who also (some p) e = rw (e p refl) refl

-- Another way to say who gets the signal.
pub Sent-who :
    {me : Process} {sig : ℕ} {priv : Bool} {who also : ℕ → Process → Bool} {n retval : ℕ}
    {s : Processes} {result : ℕ} {t : Processes}
    → ((j : ℕ) (p : Process) → j ≤ n → who j p ≡ also j p)
    → Sent me sig priv who n retval s result t
    → Sent me sig priv also n retval s result t
Sent-who {me = me} {sig = sig} {priv = priv} e h = record {
  changed = λ j a b. h.changed j a b ∙ after_kill-same me sig priv _ _ _ (λ p here. e j p b);
  kept = h.kept;
  size = h.size;
  from_zero = h.from_zero;
  all_sent = λ z j p a b here target. h.all_sent z j p a b here (e j p b ∙ target);
}

-- One entry, with `ok` if the signal may be sent.
pub send_sig-may :
    (me : Process) (sig : ℕ) (p : Process) (priv : Bool)
    → may_send me sig p priv ≡ true
    → send_sig me sig (some p) priv ≡ (0, some (record p { signal = set_bit p.signal (sig - 1) }))
unfolding send_sig
send_sig-may me sig p priv h = elim (Bool-cases (is_bad_signal sig)) [
  | inl bad ↦ absurd (ground (arith, rw bad at h))
  | inr good ↦ rw (good, rw good at h) refl
]

pub send_sig-may_not :
    (me : Process) (sig : ℕ) (p : Process) (priv : Bool)
    → may_send me sig p priv ≡ false
    → ((send_sig me sig (some p) priv).0 ≢ 0) × ((send_sig me sig (some p) priv).1 ≡ some p)
unfolding send_sig
send_sig-may_not me sig p priv h = elim (Bool-cases (is_bad_signal sig)) [
  | inl bad ↦ rw bad (λ e. omega (arith, e), refl)
  | inr good ↦ rw (good, rw good at h) (λ e. omega (arith, e), refl)
]

send_sig-none : (me : Process) (sig : ℕ) (priv : Bool) → (send_sig me sig none priv).1 ≡ none
unfolding send_sig
send_sig-none me sig priv = refl

-- One round of the loop.
module _ (me : Process) (sig : ℕ) (test : Option Process → Bool) (priv : Bool) (n : ℕ)
    (s : Processes) (h : suc n < length s.task) where
  abbrev pub entry : Option Process
  entry = process_at s (suc n)

  abbrev pub answer : ℕ × Option Process
  answer = send_sig me sig entry priv

  abbrev pub once : Processes
  once = if test entry then put_process s (suc n) answer.1 else s

  pub once-ne : (j : ℕ) → suc n ≢ j → process_at once j ≡ process_at s j
  once-ne j ne = elim (Bool-cases (test entry)) [
    | inl hit ↦ rw hit (get_or-set_ne s.task (suc n) j answer.1 none ne)
    | inr miss ↦ rw miss refl
  ]

  pub once-length : length once.task ≡ length s.task
  once-length = elim (Bool-cases (test entry)) [
    | inl hit ↦ rw hit (length-set s.task (suc n) answer.1)
    | inr miss ↦ rw miss refl
  ]

  once-none : entry ≡ none → process_at once (suc n) ≡ none
  once-none e = elim (Bool-cases (test entry)) [
    | inl hit ↦
        rw hit (get_or-set_self s.task (suc n) answer.1 none h ∙ rw e (send_sig-none me sig priv))
    | inr miss ↦ rw miss e
  ]

  once-some :
      (p : Process)
      → entry ≡ some p
      → process_at once (suc n) ≡ after_kill me sig priv (λ q. test (some q)) (some p)
  once-some p e = elim (Bool-cases (test (some p))) [
    | inl hit ↦
        rw (e, hit)
          (get_or-set_self s.task (suc n) _ none h ∙ elim (Bool-cases (may_send me sig p priv)) [
            | inl may ↦
                rw may (ap (λ (x : ℕ × Option Process). x.1) (send_sig-may me sig p priv may))
            | inr may_not ↦ rw may_not (send_sig-may_not me sig p priv may_not).1
          ])
    | inr miss ↦ rw (e, miss) e
  ]

  once-after_kill : process_at once (suc n) ≡ after_kill me sig priv (λ q. test (some q)) entry
  once-after_kill = elim (Option-cases entry) [
    | inl e ↦ once-none e ∙ rw e refl
    | inr (p, e) ↦ once-some p e ∙ rw e refl
  ]

  once-error :
      (p : Process)
      → entry ≡ some p
      → test (some p) ≡ true
      → (test entry && not (answer.0 == 0)) ≡ false
      → may_send me sig p priv ≡ true
  once-error p e hit ok = elim (Bool-cases (may_send me sig p priv)) [
    | inl may ↦ may
    | inr may_not ↦
        absurd ((send_sig-may_not me sig p priv may_not).0 (ground (arith, rw (e, hit) at ok)))
  ]

-- The rounds after this one, put behind it.
pub Sent-round :
    (me : Process) (sig : ℕ) (test : Option Process → Bool) (priv : Bool) (who : ℕ → Process → Bool)
    (n retval : ℕ) (s : Processes) (h : suc n < length s.task)
    → (result : ℕ) (t : Processes)
    → ((p : Process) → process_at s (suc n) ≡ some p → who (suc n) p ≡ test (some p))
    → let err = answer me sig test priv n s h in
      let failed = test (entry me sig test priv n s h) && not (err.0 == 0) in
      Sent me sig priv who n
        (if failed then err.0 else retval)
        (once me sig test priv n s h)
        result
        t
      → Sent me sig priv who (suc n) retval s result t
Sent-round me sig test priv who n retval s h result t agree rest = record {
  changed = λ j a b. elim (lt_suc-cases j (suc n) (omega (arith, b))) [
    | inl last ↦ rw last (
        rest.kept (suc n) (inr (omega arith))
        ∙ once-after_kill me sig test priv n s h
        ∙ after_kill-same me sig priv _ _ _ (λ p e. sym (agree p e)))
    | inr below ↦
        rw (sym (once-ne me sig test priv n s h j (omega (arith, below))))
          (rest.changed j a (omega (arith, below)))
  ];
  kept =
      λ j k. rest.kept j (ground (arith, k)) ∙ once-ne me sig test priv n s h j (ground (arith, k));
  size = rest.size ∙ once-length me sig test priv n s h;
  from_zero = λ e. (zeros e).1;
  all_sent = λ e j p a b here target. elim (lt_suc-cases j (suc n) (omega (arith, b))) [
    | inl last ↦
        let there = rw last at here in
        once-error me sig test priv n s h p there (sym (agree p there) ∙ rw last at target)
          (zeros e).0
    | inr below ↦
        rest.all_sent e j p a (omega (arith, below))
          (once-ne me sig test priv n s h j (omega (arith, below)) ∙ here) target
  ];
}
  where
    err : ℕ × Option Process
    err = answer me sig test priv n s h

    zeros :
        result ≡ 0
        → ((test (entry me sig test priv n s h) && not (err.0 == 0)) ≡ false) × (retval ≡ 0)
    zeros e = elim (Bool-cases (test (entry me sig test priv n s h) && not (err.0 == 0))) [
      | inl f ↦ absurd (failed_ne f (rw f at (rest.from_zero e)))
      | inr f ↦ (f, rw f at (rest.from_zero e))
    ]
      where
        failed_ne : (test (entry me sig test priv n s h) && not (err.0 == 0)) ≡ true → err.0 ≢ 0
        failed_ne f = ground (arith, f)

pub no_entry-Sent :
    (me : Process) (sig : ℕ) (priv : Bool) (who : ℕ → Process → Bool) (retval : ℕ) (s : Processes)
    → Sent me sig priv who 0 retval s retval s
no_entry-Sent me sig priv who retval s = record {
  changed = λ j a b. absurd (omega arith);
  kept = λ j k. refl;
  size = refl;
  from_zero = λ e. e;
  all_sent = λ e j p a b. absurd (omega arith);
}

pub send_loop-Sent :
    (me : Process) (sig : ℕ) (test : Option Process → Bool) (priv : Bool) (who : ℕ → Process → Bool)
    (n retval : ℕ) (s : Processes)
    → n < length s.task
    → ((j : ℕ) (p : Process) → j ≤ n → who j p ≡ test (some p))
    → let (result, t) = send_loop me sig test priv n retval s in
      Sent me sig priv who n retval s result t
unfolding send_loop
send_loop-Sent me sig test priv who zero retval s h agree = no_entry-Sent me sig priv who retval s
send_loop-Sent me sig test priv who (suc n) retval s h agree =
    Sent-round me sig test priv who n retval s h _ _ (λ p e. agree (suc n) p (omega arith))
      (send_loop-Sent me sig test priv who n _ (once me sig test priv n s h)
        (omega (arith, h, once-length me sig test priv n s h))
        (λ j p le. agree j p (omega (arith, le))))
