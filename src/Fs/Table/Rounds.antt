-- ===== src/Fs/Table/Rounds.antt =====
-- The loop of iput ends within the two rounds that it is given: write_inode leaves the inode clean.
use linux_0_11_read.Prelude.{
  ℕ, suc, ◌<◌, ◌≡◌, refl, sym, ap, ◌∙◌, subst, Bool, true, false, ◌==◌, ltb, if◌then◌else◌, arith,
  Kernel, Outcome, done, halted, Bool-cases, inl, inr,
}
use linux_0_11_read.Fs.Calls.Action.{gets, ◌>>=◌, continue, choose}
use linux_0_11_read.Fs.Table.{
  Slot, Inodes, Below, slot_at, change, wait_on_inode, lock_inode, unlock_inode, put_in_block,
  with_block, write_inode,
}
use linux_0_11_read.Fs.Table.Calls.{drop_inode}
use linux_0_11_read.Fs.Table.Triple.{
  Ends, Triple, Triple-bind, Triple-stop, Triple-choose, Triple-found, Triple-fact, Triple-so,
  Triple-pure, Triple-gets, Triple-asleep,
}

-- Two continuations that agree after an action make the same whole.
continue-same :
    {S A B : Type 0} {after : A → S → Type 0} (o : Outcome S A) (f g : A → Kernel S B)
    → ((a : A) (t : S) → after a t → f a t ≡ g a t)
    → Ends after o
    → continue o f ≡ continue o g
unfolding Ends
continue-same (halted h t) f g e p = refl
continue-same (done a t) f g e p = e a t p

-- The slot `i`, as far as its dirt and its device go.
record Has (i : ℕ) (dirt : Bool) (s : Inodes) : Type 0 where
  is_dirty : (s.inode_table i).i_dirt ≡ dirt
  on_device : 0 < (s.inode_table i).i_dev

Triple-set :
    {dirt after : Bool} (i : ℕ) (f : Slot → Slot)
    → ((n : Slot) → n.i_dirt ≡ dirt → (f n).i_dirt ≡ after)
    → ((n : Slot) → (f n).i_dev ≡ n.i_dev)
    → Triple (Has i dirt) (change i f) (λ r. Has i after)
unfolding change Ends
Triple-set {dirt = dirt} {after = after} i f d e = record { at = λ s h. put s h }
  where
    here : (i == i) ≡ true
    here = ground arith

    put :
        (s : Inodes)
        → Has i dirt s
        → Has i after (record s {
          inode_table = λ j. if j == i then f (s.inode_table i) else s.inode_table j;
        })
    put s h = record {
      is_dirty = rw here (d (s.inode_table i) h.is_dirty);
      on_device = rw here (rw (e (s.inode_table i)) h.on_device);
    }

Triple-read :
    {dirt : Bool} (i : ℕ)
    → Triple (Has i dirt) (slot_at i) (λ n s. Has i dirt s × ((n.i_dirt ≡ dirt) × (0 < n.i_dev)))
unfolding slot_at
Triple-read i =
    Triple-so
      (λ n s (h, e).
        (h, (ap (λ m. m.i_dirt) (sym e) ∙ h.is_dirty, subst (λ m. 0 < m.i_dev) e h.on_device)))
      (Triple-gets _)

Triple-wait : {dirt : Bool} (i : ℕ) → Triple (Has i dirt) (wait_on_inode i) (λ r. Has i dirt)
unfolding wait_on_inode
Triple-wait i =
    Triple-bind (Triple-read i)
      λ n. Triple-fact λ e. Triple-choose _ (λ h. Triple-asleep) (λ h. Triple-pure tt)

Triple-put_in_block :
    {dirt : Bool} (i dev block place : ℕ) (n : Slot)
    → Triple (Has i dirt) (put_in_block dev block place n.on_disk) (λ r. Has i dirt)
unfolding put_in_block Ends
Triple-put_in_block i dev block place n = record {
  at = λ s h. record { is_dirty = h.is_dirty; on_device = h.on_device };
}

module _ (below : Below) where
  Triple-cleans : (i : ℕ) → Triple (Has i true) (write_inode below i) (λ r. Has i false)
  unfolding write_inode lock_inode unlock_inode with_block
  Triple-cleans i =
      Triple-bind (Triple-bind (Triple-wait i) λ u. Triple-set i _ (λ n d. d) (λ n. refl)) λ u.
        Triple-bind (Triple-read i) λ n. Triple-fact λ (d, e).
          Triple-choose _ (λ h. absurd (ground (arith, h, d, e)))
            λ h. Triple-bind (Triple-so (λ a s t. t.0) (Triple-gets _)) λ sb.
              Triple-found sb (λ o. Triple-stop)
                λ b o.
                  Triple-choose _
                    (λ r. Triple-bind (Triple-put_in_block i _ _ _ n) λ v.
                      Triple-bind (Triple-set i _ (λ m k. refl) (λ m. refl))
                        λ w. Triple-set i _ (λ m k. k) (λ m. refl))
                    (λ r. Triple-stop)

  -- A clean inode takes one round.
  clean_round :
      (k i : ℕ) (s : Inodes) → Has i false s → drop_inode below (suc k) i s ≡ drop_inode below 1 i s
  unfolding drop_inode slot_at gets ◌>>=◌ choose
  clean_round k i s h = rw h.is_dirty refl

  after_write :
      (k i : ℕ) (s : Inodes)
      → Has i true s
      → (write_inode below i >>= λ u. wait_on_inode i >>= λ v. drop_inode below (suc k) i) s
        ≡ (write_inode below i >>= λ u. wait_on_inode i >>= λ v. drop_inode below 1 i) s
  unfolding ◌>>=◌
  after_write k i s h =
      continue-same (write_inode below i s) _ _
        (λ u t c.
          continue-same (wait_on_inode i t) _ _ (λ v w d. clean_round k i w d)
            ((Triple-wait i).at t c))
        ((Triple-cleans i).at s h)

  pub two_rounds :
      (k i : ℕ) (s : Inodes)
      → 0 < (s.inode_table i).i_dev
      → drop_inode below (suc (suc k)) i s ≡ drop_inode below 2 i s
  unfolding drop_inode slot_at gets ◌>>=◌ choose
  two_rounds k i s dev = elim (Bool-cases (s.inode_table i).i_dirt) [
    | inl d ↦ elim (Bool-cases (ltb 1 (s.inode_table i).i_count)) [
      | inl a ↦ rw a refl
      | inr a ↦ elim (Bool-cases ((s.inode_table i).on_disk.i_nlinks == 0)) [
        | inl c ↦ rw (a, c) refl
        | inr c ↦ rw (a, c, d) (after_write k i s (record { is_dirty = d; on_device = dev }))
      ]
    ]
    | inr d ↦ rw d refl
  ]
