-- ===== src/Fs/Files/Free.antt =====
-- The descriptor that `dupfd` gives.
use linux_0_11_read.Prelude.{
  ℕ, zero, suc, ◌+◌, ◌-◌, ◌≤◌, ◌<◌, ◌≡◌, ◌≢◌, ◌⊎◌, inl, inr, List, Option, none, some, arith,
  get_or, Option-cases, done, Bool-cases, leb, ℕ_discrete,
}
use linux_0_11_read.Fs.Files.{Files, nr_open, emfile, fd_at, free_fd, install, dupfd}

-- The search stops at the first free place, or at the end.
pub record IsFirstFree (filp : List (Option ℕ)) (arg n free : ℕ) : Type 0 where
  pub from : arg ≤ free
  pub to : free ≤ arg + n
  pub taken : (j : ℕ) → arg ≤ j → j < free → get_or filp j none ≢ none
  pub is_free : free < arg + n → get_or filp free none ≡ none

pub free_fd-IsFirstFree :
    (n : ℕ) (filp : List (Option ℕ)) (arg : ℕ) → IsFirstFree filp arg n (free_fd n filp arg)
unfolding free_fd
free_fd-IsFirstFree zero filp arg = record {
  from = omega arith;
  to = omega arith;
  taken = λ j p q. absurd (omega arith);
  is_free = λ p. absurd (omega arith);
}
free_fd-IsFirstFree (suc n) filp arg = elim (Option-cases (get_or filp arg none)) [
  | inl e ↦
      rw (e, free_fd)
        record {
          from = omega arith;
          to = omega arith;
          taken = λ j p q. absurd (omega arith);
          is_free = λ p. e;
        }
  | inr (f, e) ↦ rw (e, free_fd) (later f e (free_fd-IsFirstFree n filp (arg + 1)))
]
  where
    later :
        (f : ℕ)
        → get_or filp arg none ≡ some f
        → IsFirstFree filp (arg + 1) n (free_fd n filp (arg + 1))
        → IsFirstFree filp arg (suc n) (free_fd n filp (arg + 1))
    later f e h = record {
      from = omega (arith, h.from);
      to = omega (arith, h.to);
      taken = λ j p q. elim (ℕ_discrete j arg) [
        | yes at ↦ rw (at, e) (λ x. cc)
        | no ne ↦ h.taken j (omega arith) q
      ];
      is_free = λ p. h.is_free (omega arith);
    }

-- dupfd of a descriptor below 20 that is open, with arg below 20, returns the lowest free
-- descriptor from arg on, opened on the same file, or EMFILE with nothing changed, when all of
-- them are open.
pub dupfd_lem :
    (fd arg f : ℕ) (s : Files)
    → fd < nr_open
    → fd_at s fd ≡ some f
    → arg < nr_open
    → (free : ℕ) × IsFirstFree s.filp arg (nr_open - arg) free
      × ((dupfd fd arg s ≡ install f free s) × (free < nr_open)
          ⊎ (dupfd fd arg s ≡ done emfile s) × (free ≡ nr_open))
unfolding dupfd
dupfd_lem fd arg f s h e a = (
  free,
  first,
  elim (Bool-cases (leb nr_open free)) [
    | inl full ↦ inr (ground (arith, e, full), ground (arith, full, first.to))
    | inr room ↦ inl (ground (arith, e, room), ground (arith, room))
  ],
)
  where
    free : ℕ
    free = free_fd (nr_open - arg) s.filp arg

    first : IsFirstFree s.filp arg (nr_open - arg) free
    first = free_fd-IsFirstFree (nr_open - arg) s.filp arg
