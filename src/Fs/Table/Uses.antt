-- ===== src/Fs/Table/Uses.antt =====
-- iput takes one use of an inode, and iget adds one.
use linux_0_11_read.Prelude.{
  ℕ, zero, suc, ◌+◌, ◌^◌, ◌<◌, ◌≡◌, refl, subst, ◌==◌, if◌then◌else◌, arith, Kernel, done,
}
use linux_0_11_read.Fs.Calls.Action.{pure, ◌>>=◌}
use linux_0_11_read.Fs.Table.{Slot, Inodes, Below}
use linux_0_11_read.Fs.Table.Calls.{
  drop_inode, drop_pipe, sync_block_device, iput, find_inode, iget,
}
use linux_0_11_read.Fs.Table.Triple.{
  Ends, Triple, Triple-bind, Triple-stop, Triple-choose, Triple-found, Triple-fact, Triple-since,
  Triple-so, Triple-pure, Triple-asleep,
}
use linux_0_11_read.Fs.Table.Stable.{
  Triple-known, Triple-wait_on_inode, Triple-read_inode, Triple-write_inode,
}
use linux_0_11_read.Fs.Table.Counts.{
  Counts, Counts-Stable, less, more, KeepsCounts, same_Counts, Triple-change, Triple-slot_at,
  Triple-one_use_less, Triple-get_empty_inode,
}

module _ (below : Below) ⦃keeps : KeepsCounts below⦄ where
  Triple-drop_inode :
      (k : ℕ) (c : ℕ → ℕ) (i : ℕ)
      → (c i ≡ 0 → ⊥)
      → Triple (Counts c) (drop_inode below k i) (λ r. Counts (less c i))
  unfolding drop_inode
  Triple-drop_inode zero c i used = Triple-asleep
  Triple-drop_inode (suc k) c i used = Triple-bind (Triple-slot_at i) λ n. Triple-fact λ e.
      Triple-choose _ (λ many. Triple-one_use_less c i)
        λ one.
          Triple-choose _
            (λ h. Triple-bind (keeps.truncate c i) λ u.
              Triple-so (λ r s. same_Counts s (λ j. ground (arith, e, one))) (keeps.free_inode c i))
            λ h.
              Triple-choose _
                (λ d.
                  Triple-bind (Triple-write_inode below i)
                    λ u. Triple-bind (Triple-wait_on_inode i) λ v. Triple-drop_inode k c i used)
                (λ d. Triple-one_use_less c i)

  Triple-drop_pipe :
      (c : ℕ → ℕ) (i : ℕ) (n : Slot)
      → n.i_count ≡ c i
      → Triple (Counts c) (drop_pipe below i n) (λ r. Counts (less c i))
  unfolding drop_pipe
  Triple-drop_pipe c i n e = Triple-bind (Triple-one_use_less c i) λ u.
      Triple-choose _
        (λ h.
          Triple-bind (keeps.free_page (less c i) _) λ v.
            Triple-change (less c i) (less c i) i _ (λ m k. ground (arith, e, h)) (λ j k. refl))
        (λ h. Triple-pure tt)

  Triple-sync_block_device :
      (c : ℕ → ℕ) (i : ℕ) (n : Slot)
      → Triple (Counts c) (sync_block_device below i n) (λ r. Counts c)
  unfolding sync_block_device
  Triple-sync_block_device c i n =
      Triple-choose _ (λ h. Triple-bind (keeps.sync_dev c _) λ u. Triple-wait_on_inode i)
        (λ h. Triple-pure tt)

  pub Triple-iput : (c : ℕ → ℕ) (i : ℕ) → Triple (Counts c) (iput below i) (λ r. Counts (less c i))
  unfolding iput
  Triple-iput c i = Triple-bind (Triple-wait_on_inode i) λ u. Triple-bind (Triple-slot_at i) λ n.
      Triple-fact λ e.
        Triple-choose _ (λ z. Triple-stop)
          λ used.
            Triple-choose _ (λ p. Triple-drop_pipe c i n e)
              λ p.
                Triple-choose _ (λ d. Triple-one_use_less c i)
                  λ d.
                    Triple-bind (Triple-sync_block_device c i n)
                      λ v. Triple-drop_inode 2 c i (λ z. ground (arith, e, used, z))

  -- The use of the empty slot is given back, and the inode has one more.
  Triple-find_inode :
      (k : ℕ) (c : ℕ → ℕ) (empty dev nr : ℕ)
      → ((i : ℕ) → c i + 1 < 2 ^ 16)
      → c empty ≡ 0
      → Triple (Counts (more c empty)) (find_inode below k empty dev nr) (λ r. Counts (more c r))
  unfolding find_inode
  Triple-find_inode zero c empty dev nr small free = Triple-asleep
  Triple-find_inode (suc k) c empty dev nr small free = Triple-bind (Triple-known _) λ at.
      Triple-found at
        (λ h.
          Triple-bind (Triple-change (more c empty) (more c empty) empty _ (λ n e. e) (λ j e. refl))
            λ u. Triple-bind (Triple-read_inode below empty) λ v. Triple-pure empty)
        λ i h. Triple-bind (Triple-wait_on_inode i) λ u.
          Triple-bind
            (Triple-change (more c empty) (more (more c empty) i) i _
              (λ n e. ground (arith, e, small i, free)) (λ j e. ground (arith, e)))
            λ v. Triple-bind (Triple-slot_at i) λ n. Triple-fact λ e.
              Triple-bind (Triple-known _) λ super.
                Triple-choose _ (λ m. found i)
                  λ m.
                    Triple-found super (λ o. found i)
                      λ b o. Triple-bind (Triple-iput _ i) λ w.
                        Triple-bind (Triple-known _) λ under.
                          Triple-since (λ s. same_Counts s (λ j. ground arith))
                            (Triple-find_inode k c empty under 1 small free)
    where
      found :
          (i : ℕ)
          → Triple
              (Counts (more (more c empty) i))
              (iput below empty >>= λ u. pure i)
              (λ r. Counts (more c r))
      found i =
          Triple-bind (Triple-iput _ empty)
            λ u. Triple-since (λ s. same_Counts s (λ j. ground arith)) (Triple-pure i)

  Triple-iget :
      (c : ℕ → ℕ) (dev nr : ℕ)
      → ((i : ℕ) → c i + 1 < 2 ^ 16)
      → Triple (Counts c) (iget below dev nr) (λ r. Counts (more c r))
  unfolding iget
  Triple-iget c dev nr small =
      Triple-choose _ (λ h. Triple-stop)
        λ h.
          Triple-bind (Triple-get_empty_inode below c)
            λ empty. Triple-fact λ free. Triple-find_inode 9 c empty dev nr small free

abbrev counts : Inodes → ℕ → ℕ
counts s i = (s.inode_table i).i_count

ends-Counts :
    {A : Type 0} {s t : Inodes} {m : Kernel Inodes A} {a : A} {d : A → ℕ → ℕ}
    → Triple (Counts (counts s)) m (λ a. Counts (d a))
    → m s ≡ done a t
    → Counts (d a) t
unfolding Ends
ends-Counts {s = s} {d = d} p e =
    subst (Ends (λ a. Counts (d a))) e (p.at s (record { at = λ j. refl }))

-- When iget returns a slot, its use count is one more than before and all others are as they were:
-- the empty slot that it took at first is given back, and so is each mount point on the way. All
-- counts were below 2^16 - 1; truncate, sync_dev and free_page keep the counts and free_inode
-- clears one.
pub iget-uses :
    (below : Below)
    → KeepsCounts below
    → (dev nr : ℕ) (s t : Inodes) (r : ℕ) → ((i : ℕ) → (s.inode_table i).i_count + 1 < 2 ^ 16)
    → iget below dev nr s ≡ done r t
    → (i : ℕ) → (t.inode_table i).i_count ≡ (s.inode_table i).i_count + (if i == r then 1 else 0)
unfolding Ends
iget-uses below keeps dev nr s t r small e i =
    ground (arith, (ends-Counts (Triple-iget below ⦃keeps = keeps⦄ (counts s) dev nr small) e).at i)

-- When iget returns a slot and iput of this slot returns, every use count of the table is as it
-- was before iget, whatever mount points, dirty slots and removed inodes were on the way. All
-- counts were below 2^16 - 1; truncate, sync_dev and free_page keep the counts and free_inode
-- clears one.
pub iput-iget :
    (below : Below)
    → KeepsCounts below
    → (dev nr : ℕ) (s t u : Inodes) (r : ℕ) → ((i : ℕ) → (s.inode_table i).i_count + 1 < 2 ^ 16)
    → iget below dev nr s ≡ done r t
    → iput below r t ≡ done tt u
    → (i : ℕ) → (u.inode_table i).i_count ≡ (s.inode_table i).i_count
iput-iget below keeps dev nr s t u r small e f i =
    let p = ends-Counts (Triple-iput below ⦃keeps = keeps⦄ (counts t) r) f in
    ground (arith, p.at i, iget-uses below keeps dev nr s t r small e i)
