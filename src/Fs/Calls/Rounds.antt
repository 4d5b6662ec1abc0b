-- ===== src/Fs/Calls/Rounds.antt =====
-- The loop of empty_dir ends within the rounds that it is given.
use linux_0_11_read.Prelude.{ℕ, zero, suc, ◌+◌, ◌≤◌, ◌≡◌, refl, ap, fun_ext, ◌∙◌, true, leb, arith}
use linux_0_11_read.Fs.Calls.Action.{choose}
use linux_0_11_read.Fs.Calls.Interface.{Files}
use linux_0_11_read.Fs.Calls.Links.{empty_round, empty_loop}

module _ {S : Type 0} (ops : Files S) (now : ℕ) where
  one_more :
      (n i len nr b : ℕ)
      → len ≤ n + nr
      → empty_loop ops now (suc n) i len nr b ≡ empty_loop ops now (suc (suc n)) i len nr b
  unfolding empty_loop choose
  one_more zero i len nr b h = let past : leb len nr ≡ true = ground (arith, h) in rw past refl
  one_more (suc n) i len nr b h =
      ap (λ skip. empty_round ops now i len nr b skip (empty_loop ops now (suc n) i len (nr + 1)))
        (one_more n i len (nr + 64) b (omega (arith, h)))
      ∙ ap
          (λ next.
            empty_round ops now i len nr b (empty_loop ops now (suc (suc n)) i len (nr + 64) b)
              next)
          (fun_ext λ c. one_more n i len (nr + 1) c (omega (arith, h)))

  -- Any number of rounds more gives the same.
  pub enough_rounds :
      (k n i len nr b : ℕ)
      → len ≤ n + nr
      → empty_loop ops now (suc n) i len nr b ≡ empty_loop ops now (suc (k + n)) i len nr b
  enough_rounds zero n i len nr b h =
      let same : n ≡ 0 + n = omega arith in ap (λ m. empty_loop ops now (suc m) i len nr b) same
  enough_rounds (suc k) n i len nr b h =
      let same : suc (k + n) ≡ suc k + n = omega arith in
      enough_rounds k n i len nr b h
      ∙ one_more (k + n) i len nr b (omega (arith, h))
      ∙ ap (λ m. empty_loop ops now (suc m) i len nr b) same
