-- ===== src/Fs/Table/Stable.antt =====
-- What holds of the table whatever its clean and dirty inodes, its locks and the disk: the rules for
-- what only changes these.
use linux_0_11_read.Prelude.{
  ℕ, ◌≡◌, refl, subst, ◌==◌, true, Bool-cases, inl, inr, if◌then◌else◌, arith, Kernel,
}
use linux_0_11_read.Fs.Calls.Action.{gets}
use linux_0_11_read.Fs.Table.{
  DInode, Slot, Inodes, Below, slot_at, change, wait_on_inode, lock_inode, unlock_inode, with_block,
  put_in_block, read_inode, write_inode,
}
use linux_0_11_read.Fs.Table.Calls.{set_last, clean_inode}
use linux_0_11_read.Fs.Table.Triple.{
  Ends, Triple, Triple-bind, Triple-stop, Triple-choose, Triple-found, Triple-so, Triple-pure,
  Triple-gets, Triple-asleep,
}

-- The same inodes with the same use counts.
pub record Same (n m : Slot) : Type 0 where
  pub dev : m.i_dev ≡ n.i_dev
  pub num : m.i_num ≡ n.i_num
  pub count : m.i_count ≡ n.i_count

pub record Stable (inv : Inodes → Type 0) : Type 0 where
  pub same :
      (s t : Inodes)
      → ((i : ℕ) → Same (s.inode_table i) (t.inode_table i))
      → t.super_block ≡ s.super_block
      → inv s
      → inv t

abbrev unchanged : (n : Slot) → Same n n
unchanged n = record { dev = refl; num = refl; count = refl }

pub same_place : (i j : ℕ) → (i == j) ≡ true → i ≡ j
same_place i j h = ground (arith, h)

Same-change :
    (s : Inodes) (i : ℕ) (f : Slot → Slot)
    → ((n : Slot) → Same n (f n))
    → (j : ℕ) → Same (s.inode_table j) (if j == i then f (s.inode_table i) else s.inode_table j)
Same-change s i f e j = elim (Bool-cases (j == i)) [
  | inl h ↦ rw h (
      subst (λ k. Same (s.inode_table j) (f (s.inode_table k))) (same_place j i h)
        (e (s.inode_table j)))
  | inr h ↦ rw h (unchanged (s.inode_table j))
]

module _ {inv : Inodes → Type 0} ⦃stable : Stable inv⦄ where
  pub Triple-keep :
      (i : ℕ) (f : Slot → Slot) → ((n : Slot) → Same n (f n)) → Triple inv (change i f) (λ r. inv)
  unfolding change Ends
  Triple-keep i f e = record { at = λ s h. stable.same s _ (Same-change s i f e) refl h }

  pub Triple-known : {A : Type 0} (f : Inodes → A) → Triple inv (gets f) (λ a. inv)
  Triple-known f = Triple-so (λ a s (h, e). h) (Triple-gets f)

  pub Triple-slot : (i : ℕ) → Triple inv (slot_at i) (λ n. inv)
  unfolding slot_at
  Triple-slot i = Triple-known _

  pub Triple-wait_on_inode : (i : ℕ) → Triple inv (wait_on_inode i) (λ r. inv)
  unfolding wait_on_inode
  Triple-wait_on_inode i =
      Triple-bind (Triple-slot i)
        λ n. Triple-choose n.i_lock (λ h. Triple-asleep) (λ h. Triple-pure tt)

  pub Triple-lock_inode : (i : ℕ) → Triple inv (lock_inode i) (λ r. inv)
  unfolding lock_inode
  Triple-lock_inode i =
      Triple-bind (Triple-wait_on_inode i)
        λ u. Triple-keep i _ (λ n. record { dev = refl; num = refl; count = refl })

  pub Triple-unlock_inode : (i : ℕ) → Triple inv (unlock_inode i) (λ r. inv)
  unfolding unlock_inode
  Triple-unlock_inode i = Triple-keep i _ (λ n. record { dev = refl; num = refl; count = refl })

  pub Triple-set_last : (i : ℕ) → Triple inv (set_last i) (λ r. inv)
  unfolding set_last Ends
  Triple-set_last i = record { at = λ s h. stable.same s _ (λ j. unchanged _) refl h }

  pub Triple-put_in_block :
      (dev block place : ℕ) (d : DInode) → Triple inv (put_in_block dev block place d) (λ r. inv)
  unfolding put_in_block Ends
  Triple-put_in_block dev block place d = record {
    at = λ s h. stable.same s _ (λ j. unchanged _) refl h;
  }

module _ {inv : Inodes → Type 0} ⦃stable : Stable inv⦄ (below : Below) where
  pub Triple-with_block :
      (n : Slot) (rest : ℕ → Kernel Inodes (Unit {0}))
      → ((b : ℕ) → Triple inv (rest b) (λ r. inv))
      → Triple inv (with_block below n rest) (λ r. inv)
  unfolding with_block
  Triple-with_block n rest p =
      Triple-bind (Triple-known _) λ sb.
        Triple-found sb (λ h. Triple-stop) λ b h. Triple-choose _ (λ e. p _) (λ e. Triple-stop)

  pub Triple-read_inode : (i : ℕ) → Triple inv (read_inode below i) (λ r. inv)
  unfolding read_inode
  Triple-read_inode i = Triple-bind (Triple-lock_inode i) λ u. Triple-bind (Triple-slot i) λ n.
      Triple-with_block n _ λ b. Triple-bind (Triple-known _) λ d.
        Triple-bind (Triple-keep i _ (λ n. record { dev = refl; num = refl; count = refl }))
          λ v. Triple-unlock_inode i

  pub Triple-write_inode : (i : ℕ) → Triple inv (write_inode below i) (λ r. inv)
  unfolding write_inode
  Triple-write_inode i = Triple-bind (Triple-lock_inode i) λ u. Triple-bind (Triple-slot i) λ n.
      Triple-choose _ (λ h. Triple-unlock_inode i)
        λ h. Triple-with_block n _ λ b. Triple-bind (Triple-put_in_block _ _ _ _) λ v.
          Triple-bind (Triple-keep i _ (λ n. record { dev = refl; num = refl; count = refl }))
            λ w. Triple-unlock_inode i

  pub Triple-clean_inode : (i : ℕ) → Triple inv (clean_inode below i) (λ r. inv)
  unfolding clean_inode
  Triple-clean_inode i = Triple-bind (Triple-slot i) λ n.
      Triple-choose _
        (λ h. Triple-bind (Triple-write_inode i) λ u. Triple-bind (Triple-wait_on_inode i) λ v.
          Triple-bind (Triple-slot i)
            λ m. Triple-choose _ (λ d. Triple-asleep) (λ d. Triple-pure tt))
        (λ h. Triple-pure tt)
