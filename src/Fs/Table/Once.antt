-- ===== src/Fs/Table/Once.antt =====
-- That no inode is in two slots of the table: for iget and iput.
use linux_0_11_read.Prelude.{ℕ, zero, suc, ◌^◌, ◌<◌, ◌≡◌, refl, ◌∙◌, subst, arith, done}
use linux_0_11_read.Fs.Calls.Action.{pure, ◌>>=◌}
use linux_0_11_read.Fs.Table.{Slot, Inodes, Below, change}
use linux_0_11_read.Fs.Table.Calls.{
  one_use_less, get_empty_inode, drop_inode, drop_pipe, sync_block_device, iput, find_inode, iget,
}
use linux_0_11_read.Fs.Table.Triple.{
  Ends, Triple, Triple-bind, Triple-stop, Triple-choose, Triple-found, Triple-fact, Triple-since,
  Triple-pure, Triple-gets, Triple-asleep,
}
use linux_0_11_read.Fs.Table.Stable.{
  Triple-known, Triple-slot, Triple-wait_on_inode, Triple-set_last, Triple-read_inode,
  Triple-write_inode, Triple-clean_inode,
}
use linux_0_11_read.Fs.Table.Unique.{
  IsTable, KeepsTable, IsTable-Stable, Left, Triple-left, Triple-assign,
}

-- A slot that keeps its inode, and one that loses it.
as_it_is :
    (f : Slot → Slot)
    → ((n : Slot) → (f n).i_dev ≡ n.i_dev)
    → ((n : Slot) → (f n).i_num ≡ n.i_num)
    → (n : Slot) → Left n (f n)
as_it_is f d e n = record { at = λ u. (d n, e n) }

emptied : (f : Slot → Slot) → ((n : Slot) → (f n).i_dev ≡ 0) → (n : Slot) → Left n (f n)
emptied f z n = record { at = λ u. absurd (omega (arith, u, z n)) }

module _ (below : Below) ⦃keeps : KeepsTable below⦄ where
  Triple-one_use_less : (i : ℕ) → Triple IsTable (change i one_use_less) (λ r. IsTable)
  Triple-one_use_less i = Triple-left i one_use_less (as_it_is one_use_less (λ n. refl) (λ n. refl))

  Triple-get_empty_inode : Triple IsTable (get_empty_inode below) (λ i. IsTable)
  unfolding get_empty_inode
  Triple-get_empty_inode = Triple-bind (Triple-known _) λ (last, found).
      Triple-bind (Triple-set_last last) λ u.
        Triple-found found (λ h. Triple-stop)
          λ i h. Triple-bind (Triple-wait_on_inode i) λ v.
            Triple-bind (Triple-clean_inode below i) λ w. Triple-bind (Triple-slot i) λ n.
              Triple-choose _
                (λ z. Triple-bind (Triple-left i _ (emptied _ (λ n. refl))) λ x. Triple-pure i)
                (λ z. Triple-asleep)

  Triple-drop_inode : (k i : ℕ) → Triple IsTable (drop_inode below k i) (λ r. IsTable)
  unfolding drop_inode
  Triple-drop_inode zero i = Triple-asleep
  Triple-drop_inode (suc k) i = Triple-bind (Triple-slot i) λ n.
      Triple-choose _ (λ h. Triple-one_use_less i)
        λ h.
          Triple-choose _ (λ l. Triple-bind (keeps.truncate i) λ u. keeps.free_inode i)
            λ l.
              Triple-choose _
                (λ d.
                  Triple-bind (Triple-write_inode below i)
                    λ u. Triple-bind (Triple-wait_on_inode i) λ v. Triple-drop_inode k i)
                (λ d. Triple-one_use_less i)

  Triple-drop_pipe : (i : ℕ) (n : Slot) → Triple IsTable (drop_pipe below i n) (λ r. IsTable)
  unfolding drop_pipe
  Triple-drop_pipe i n = Triple-bind (Triple-one_use_less i) λ u.
      Triple-choose _
        (λ h.
          Triple-bind (keeps.free_page _) λ v. Triple-left i _ (as_it_is _ (λ n. refl) (λ n. refl)))
        (λ h. Triple-pure tt)

  Triple-iput : (i : ℕ) → Triple IsTable (iput below i) (λ r. IsTable)
  unfolding iput sync_block_device
  Triple-iput i = Triple-bind (Triple-wait_on_inode i) λ u. Triple-bind (Triple-slot i) λ n.
      Triple-choose _ (λ z. Triple-stop)
        λ z.
          Triple-choose _ (λ p. Triple-drop_pipe i n)
            λ p.
              Triple-choose _ (λ d. Triple-one_use_less i)
                λ d.
                  Triple-bind
                    (Triple-choose _
                      (λ b. Triple-bind (keeps.sync_dev _) λ v. Triple-wait_on_inode i)
                      (λ b. Triple-pure tt))
                    λ v. Triple-drop_inode 2 i

  Triple-find_inode :
      (k empty dev nr : ℕ)
      → dev < 2 ^ 16
      → nr < 2 ^ 16
      → Triple IsTable (find_inode below k empty dev nr) (λ r. IsTable)
  unfolding find_inode
  Triple-find_inode zero empty dev nr p q = Triple-asleep
  Triple-find_inode (suc k) empty dev nr p q = Triple-bind (Triple-gets _) λ at.
      Triple-found at
        (λ h.
          Triple-bind (Triple-since (λ s (t, e). (t, e ∙ h)) (Triple-assign empty dev nr p q))
            λ u. Triple-bind (Triple-read_inode below empty) λ v. Triple-pure empty)
        λ i h.
          Triple-since (λ s t. t.0)
            (Triple-bind (Triple-wait_on_inode i) λ u.
              Triple-bind (Triple-left i _ (as_it_is _ (λ n. refl) (λ n. refl))) λ v.
                Triple-bind (Triple-slot i) λ n. Triple-bind (Triple-known _) λ super.
                  Triple-choose _ (λ m. found i)
                    λ m.
                      Triple-found super (λ o. found i)
                        λ b o. Triple-bind (Triple-iput i) λ w. Triple-bind (Triple-gets _) λ under.
                          Triple-since (λ s (t, e). (t, subst (λ x. x < 2 ^ 16) e (t.device b)))
                            (Triple-fact λ r. Triple-find_inode k empty under 1 r (omega arith)))
    where
      found : (i : ℕ) → Triple IsTable (iput below empty >>= λ u. pure i) (λ r. IsTable)
      found i = Triple-bind (Triple-iput empty) λ u. Triple-pure i

  Triple-iget :
      (dev nr : ℕ) → dev < 2 ^ 16 → nr < 2 ^ 16 → Triple IsTable (iget below dev nr) (λ r. IsTable)
  unfolding iget
  Triple-iget dev nr p q =
      Triple-choose _ (λ h. Triple-stop)
        λ h. Triple-bind Triple-get_empty_inode λ empty. Triple-find_inode 9 empty dev nr p q

-- iget of an inode of 16 bits on a device of 16 bits keeps the table such that no inode of a
-- device is in two slots, mount points on the way included. What it calls of other files keeps
-- that.
pub iget-IsTable :
    (below : Below)
    → KeepsTable below
    → (dev nr : ℕ) (s t : Inodes) (r : ℕ) → dev < 2 ^ 16
    → nr < 2 ^ 16
    → IsTable s
    → iget below dev nr s ≡ done r t
    → IsTable t
unfolding Ends
iget-IsTable below keeps dev nr s t r p q h e =
    subst (Ends (λ a. IsTable)) e ((Triple-iget below ⦃keeps = keeps⦄ dev nr p q).at s h)
