-- ===== src/Fs/Table/Counts.antt =====
-- The use counts of the table: iput takes one, and iget adds one.
use linux_0_11_read.Prelude.{
  ℕ, ◌+◌, ◌-◌, ◌≡◌, ap, sym, ◌∙◌, false, ◌==◌, if◌then◌else◌, arith, Bool-cases, inl, inr,
}
use linux_0_11_read.Fs.Table.{Slot, Inodes, Below, slot_at, change}
use linux_0_11_read.Fs.Table.Stable.{
  Stable, Triple-known, Triple-wait_on_inode, Triple-set_last, Triple-clean_inode,
}
use linux_0_11_read.Fs.Table.Calls.{one_use_less, get_empty_inode}
use linux_0_11_read.Fs.Table.Triple.{
  Ends, Triple, Triple-bind, Triple-stop, Triple-choose, Triple-found, Triple-fact, Triple-since,
  Triple-so, Triple-pure, Triple-gets, Triple-asleep,
}

pub record Counts (count : ℕ → ℕ) (s : Inodes) : Type 0 where
  pub at : (i : ℕ) → (s.inode_table i).i_count ≡ count i

abbrev pub less : (ℕ → ℕ) → ℕ → ℕ → ℕ
less count i j = if j == i then count j - 1 else count j

abbrev pub more : (ℕ → ℕ) → ℕ → ℕ → ℕ
more count i j = if j == i then count j + 1 else count j

abbrev pub cleared : (ℕ → ℕ) → ℕ → ℕ → ℕ
cleared count i j = if j == i then 0 else count j

-- free_inode clears the slot of an inode that is used once; nothing else there changes a count.
pub record KeepsCounts (below : Below) : Type 0 where
  pub truncate : (c : ℕ → ℕ) (i : ℕ) → Triple (Counts c) (below.truncate i) (λ r. Counts c)
  pub free_inode :
      (c : ℕ → ℕ) (i : ℕ) → Triple (Counts c) (below.free_inode i) (λ r. Counts (cleared c i))
  pub sync_dev : (c : ℕ → ℕ) (dev : ℕ) → Triple (Counts c) (below.sync_dev dev) (λ r. Counts c)
  pub free_page : (c : ℕ → ℕ) (page : ℕ) → Triple (Counts c) (below.free_page page) (λ r. Counts c)

pub same_Counts : {c d : ℕ → ℕ} (s : Inodes) → ((i : ℕ) → c i ≡ d i) → Counts c s → Counts d s
same_Counts s e h = record { at = λ i. h.at i ∙ e i }

pub Triple-change :
    (c d : ℕ → ℕ) (i : ℕ) (f : Slot → Slot)
    → ((n : Slot) → n.i_count ≡ c i → (f n).i_count ≡ d i)
    → ((j : ℕ) → (j == i) ≡ false → c j ≡ d j)
    → Triple (Counts c) (change i f) (λ r. Counts d)
unfolding change Ends
Triple-change c d i f here there = record {
  at = λ s h. record {
    at = λ j. elim (Bool-cases (j == i)) [
      | inl e ↦ rw e (here (s.inode_table i) (h.at i) ∙ ap d (ground (arith, e)))
      | inr e ↦ rw e (h.at j ∙ there j e)
    ];
  };
}

instance pub Counts-Stable : {c : ℕ → ℕ} → Stable (Counts c)
Counts-Stable {c = c} = record { same = λ s t e f h. record { at = λ i. (e i).count ∙ h.at i } }

pub Triple-slot_at :
    {c : ℕ → ℕ} (i : ℕ) → Triple (Counts c) (slot_at i) (λ n s. Counts c s × (n.i_count ≡ c i))
unfolding slot_at
Triple-slot_at i =
    Triple-so (λ n s (h, e). (h, ap (λ m. m.i_count) (sym e) ∙ h.at i)) (Triple-gets _)

-- A use is one_use_less.
pub Triple-one_use_less :
    (c : ℕ → ℕ) (i : ℕ) → Triple (Counts c) (change i one_use_less) (λ r. Counts (less c i))
Triple-one_use_less c i =
    Triple-change c (less c i) i one_use_less (λ n h. ground (arith, h)) (λ j h. ground (arith, h))

module _ (below : Below) where
  -- The slot was free.
  pub Triple-get_empty_inode :
      (c : ℕ → ℕ)
      → Triple (Counts c) (get_empty_inode below) (λ i s. Counts (more c i) s × (c i ≡ 0))
  unfolding get_empty_inode
  Triple-get_empty_inode c = Triple-bind (Triple-known _) λ (last, found).
      Triple-bind (Triple-set_last last) λ u.
        Triple-found found (λ h. Triple-stop)
          λ i h. Triple-bind (Triple-wait_on_inode i) λ v.
            Triple-bind (Triple-clean_inode below i) λ w. Triple-bind (Triple-slot_at i) λ n.
              Triple-fact λ e.
                Triple-choose _
                  (λ z.
                    Triple-bind
                      (Triple-change c (more c i) i _ (λ m k. ground (arith, e, z))
                        (λ j k. ground (arith, k)))
                      λ x. Triple-since (λ s k. (k, ground (arith, e, z))) (Triple-pure i))
                  (λ z. Triple-asleep)
