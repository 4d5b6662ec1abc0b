-- ===== src/Fs/Calls/Removal.antt =====
-- sys_rmdir gives back the inodes that it takes; empty_dir may keep a buffer, or release one twice.
use linux_0_11_read.Prelude.{
  ℕ, zero, suc, ◌≡◌, List, [], ◌∷◌, Bool, true, false, arith, Kernel, Outcome, done, halted,
}
use linux_0_11_read.Fs.Calls.Interface.{Entry, Token, inode, of_buffer, Files}
use linux_0_11_read.Fs.Calls.Links.{empty_loop, empty_dir, remove_dir, check_dir, sys_rmdir}
use linux_0_11_read.Fs.Calls.Moves.{
  Scope, held, Balances, Moves, Moves-bind, Moves-pure, Moves-gets, Moves-choose,
  Moves-found_buffer,
}
use linux_0_11_read.Fs.Calls.Laws.{
  Laws, neutral, Moves-bread, Moves-iput_second, Moves-put, Moves-brelse, Moves-brelse_second,
}
use linux_0_11_read.Fs.Calls.Balance.{Moves-update}
use linux_0_11_read.Fs.Calls.Opening.{Moves-in_dir}
use linux_0_11_read.Fs.Calls.Linking.{Moves-give_up, Moves-give_up_first, Moves-with_old}

-- The inodes.
abbrev pub is_inode : Token → Bool
is_inode (inode i) = true
is_inode (of_buffer b) = false

abbrev pub inodes_only : Scope
inodes_only = record { counts = is_inode }

held_buffer :
    (x : Token) (b : ℕ) (l : List Token) → is_inode x ≡ true → held x (of_buffer b ∷ l) ≡ held x l
unfolding held
held_buffer (inode i) b l c = omega arith
held_buffer (of_buffer i) b l c = cc

module _ {S : Type 0} (ops : Files S) where
  loosened :
      {A : Type 0} (b : ℕ) (before : List Token) (after : A → List Token) (s : S) (o : Outcome S A)
      → Balances ops inodes_only (of_buffer b ∷ before) after s o
      → Balances ops inodes_only before after s o
  unfolding Balances
  loosened b before after s (halted h t) p = tt
  loosened b before after s (done a t) p = record {
    uses = λ x c. omega (arith, p.uses x c, held_buffer x b before c);
  }

  widened :
      {A : Type 0} (b : ℕ) (before : List Token) (after : A → List Token) (s : S) (o : Outcome S A)
      → Balances ops inodes_only before after s o
      → Balances ops inodes_only (of_buffer b ∷ before) after s o
  unfolding Balances
  widened b before after s (halted h t) p = tt
  widened b before after s (done a t) p = record {
    uses = λ x c. omega (arith, p.uses x c, held_buffer x b before c);
  }

  -- Where only the inodes count, a buffer may be held or not.
  Moves-loose :
      {A : Type 0} (b : ℕ) {before : List Token} {after : A → List Token} {m : Kernel S A}
      → Moves ops inodes_only (of_buffer b ∷ before) m after
      → Moves ops inodes_only before m after
  Moves-loose b {before = before} {after = after} {m = m} p = record {
    at = λ s. loosened b before after s (m s) (p.at s);
  }

  Moves-wide :
      {A : Type 0} (b : ℕ) {before : List Token} {after : A → List Token} {m : Kernel S A}
      → Moves ops inodes_only before m after
      → Moves ops inodes_only (of_buffer b ∷ before) m after
  Moves-wide b {before = before} {after = after} {m = m} p = record {
    at = λ s. widened b before after s (m s) (p.at s);
  }

module _ {S : Type 0} {ops : Files S} ⦃law : Laws ops inodes_only⦄ (now : ℕ) where
  Moves-release : (b : ℕ) {l : List Token} → Moves ops inodes_only l (ops.brelse b) (λ r. l)
  Moves-release b = Moves-loose ops b Moves-brelse

  Moves-empty_loop :
      (n i len nr b : ℕ) {l : List Token}
      → Moves ops inodes_only l (empty_loop ops now n i len nr b) (λ r. l)
  unfolding empty_loop
  Moves-empty_loop zero i len nr b = Moves-pure _
  Moves-empty_loop (suc n) i len nr b = Moves-bind (Moves-gets _) λ dev.
      Moves-bind (Moves-gets _) λ here.
        Moves-choose _ (Moves-bind (Moves-release b) λ u. Moves-pure _) (
          Moves-choose _
            (Moves-bind (Moves-release b) λ u. Moves-bind (neutral (law.bmap i _)) λ block.
              Moves-choose _ (Moves-empty_loop n i len _ b) (
                Moves-bind (Moves-bread dev block) λ bh. Moves-found_buffer bh (Moves-pure _) λ c.
                  Moves-wide ops c (
                    Moves-bind (Moves-gets _) λ first.
                      Moves-choose _ (Moves-empty_loop n i len _ c)
                        (Moves-bind (Moves-release c) λ v. Moves-pure _))))
            (Moves-choose _ (Moves-empty_loop n i len _ b)
              (Moves-bind (Moves-release b) λ u. Moves-pure _)))

  Moves-empty_dir :
      (i : ℕ) {l : List Token} → Moves ops inodes_only l (empty_dir ops now i) (λ r. l)
  unfolding empty_dir
  Moves-empty_dir i = Moves-bind (Moves-gets _) λ n. Moves-choose _ (Moves-pure _) (
      Moves-bind (Moves-bread _ _) λ bh. Moves-found_buffer bh (Moves-pure _) λ b.
        Moves-wide ops b (
          Moves-bind (Moves-gets _)
            λ bad. Moves-choose bad (Moves-pure _) (Moves-empty_loop _ i _ 2 b)))

  Moves-remove_dir :
      (dir i : ℕ) (e : Entry)
      → Moves ops inodes_only
          (inode i ∷ of_buffer e.buffer ∷ inode dir ∷ [])
          (remove_dir ops now dir i e)
          (λ r. [])
  unfolding remove_dir
  Moves-remove_dir dir i e = Moves-bind (Moves-empty_dir i) λ empty.
      Moves-choose _ (Moves-give_up_first now dir i e.buffer _) (
        Moves-bind (neutral (law.set_number e 0)) λ u. Moves-bind Moves-brelse_second λ v.
          Moves-bind (Moves-update now i _) λ w.
            Moves-bind (Moves-update now dir _) λ x. Moves-bind Moves-iput_second λ y. Moves-put _)

  Moves-check_dir :
      (dir : ℕ) (e : Entry) (i : ℕ)
      → Moves ops inodes_only
          (inode i ∷ of_buffer e.buffer ∷ inode dir ∷ [])
          (check_dir ops now dir e i)
          (λ r. [])
  unfolding check_dir
  Moves-check_dir dir e i = Moves-bind (Moves-gets _) λ me. Moves-bind (Moves-gets _) λ d.
      Moves-bind (Moves-gets _) λ n. Moves-bind (Moves-gets _) λ count.
        Moves-choose _ (Moves-give_up now dir i e.buffer _) (
          Moves-choose _ (Moves-give_up now dir i e.buffer _) (
            Moves-choose _ (Moves-give_up_first now dir i e.buffer _) (
              Moves-choose _ (Moves-give_up_first now dir i e.buffer _)
                (Moves-remove_dir dir i e))))

  pub Moves-sys_rmdir :
      (path : List ℕ) → Moves ops inodes_only [] (sys_rmdir ops now path) (λ r. [])
  unfolding sys_rmdir
  Moves-sys_rmdir path = Moves-bind (Moves-gets _) λ me.
      Moves-choose me (Moves-in_dir now path _ (Moves-with_old now _ _ Moves-check_dir))
        (Moves-pure _)
