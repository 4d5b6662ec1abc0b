-- ===== src/Fs/Table/Unique.antt =====
-- That no inode is in two slots of the table: what keeps it so.
use linux_0_11_read.Prelude.{
  ℕ, zero, suc, ◌+◌, ◌%◌, ◌^◌, ◌<◌, ◌≤◌, ◌≡◌, refl, sym, ◌∙◌, subst, Option, none, some, Bool, true,
  false, ◌&&◌, ◌==◌, Bool-cases, inl, inr, if◌then◌else◌, arith,
}
use linux_0_11_read.Fs.Table.{Slot, Inodes, Below, change}
use linux_0_11_read.Fs.Table.Calls.{slot_of, dev_at}
use linux_0_11_read.Fs.Table.Triple.{Ends, Triple}
use linux_0_11_read.Fs.Table.Stable.{Stable, same_place}

-- An inode of a device is in one slot, and devices have 16 bits.
pub record IsTable (s : Inodes) : Type 0 where
  pub unique :
      (i j : ℕ)
      → i < 32
      → j < 32
      → 0 < (s.inode_table i).i_dev
      → (s.inode_table i).i_dev ≡ (s.inode_table j).i_dev
      → (s.inode_table i).i_num ≡ (s.inode_table j).i_num
      → i ≡ j
  pub device : (k : ℕ) → dev_at s.super_block k < 2 ^ 16

pub record KeepsTable (below : Below) : Type 0 where
  pub truncate : (i : ℕ) → Triple IsTable (below.truncate i) (λ r. IsTable)
  pub free_inode : (i : ℕ) → Triple IsTable (below.free_inode i) (λ r. IsTable)
  pub sync_dev : (dev : ℕ) → Triple IsTable (below.sync_dev dev) (λ r. IsTable)
  pub free_page : (page : ℕ) → Triple IsTable (below.free_page page) (λ r. IsTable)

-- The slot has the inode that it had, or none.
pub record Left (n m : Slot) : Type 0 where
  pub at : 0 < m.i_dev → (m.i_dev ≡ n.i_dev) × (m.i_num ≡ n.i_num)

left-IsTable :
    (s t : Inodes)
    → ((i : ℕ) → Left (s.inode_table i) (t.inode_table i))
    → t.super_block ≡ s.super_block
    → IsTable s
    → IsTable t
left-IsTable s t left e h = record {
  unique = λ i j p q u d n.
      let (di, ni) = (left i).at u in
      let (dj, nj) = (left j).at (subst (λ x. 0 < x) d u) in
      h.unique i j p q (subst (λ x. 0 < x) di u) (sym di ∙ d ∙ dj) (sym ni ∙ n ∙ nj);
  device = λ k. subst (λ b. dev_at b k < 2 ^ 16) (sym e) (h.device k);
}

instance pub IsTable-Stable : Stable IsTable
IsTable-Stable = record {
  same = λ s t e b h. left-IsTable s t (λ i. record { at = λ u. ((e i).dev, (e i).num) }) b h;
}

Left-change :
    (s : Inodes) (i : ℕ) (f : Slot → Slot)
    → Left (s.inode_table i) (f (s.inode_table i))
    → (j : ℕ) → Left (s.inode_table j) (if j == i then f (s.inode_table i) else s.inode_table j)
Left-change s i f e j = elim (Bool-cases (j == i)) [
  | inl h ↦ rw h (subst (λ k. Left (s.inode_table k) (f (s.inode_table i))) (ground (arith, h)) e)
  | inr h ↦ rw h (record { at = λ u. (refl, refl) })
]

pub Triple-left :
    (i : ℕ) (f : Slot → Slot)
    → ((n : Slot) → Left n (f n))
    → Triple IsTable (change i f) (λ r. IsTable)
unfolding change Ends
Triple-left i f e = record {
  at = λ s h. left-IsTable s _ (Left-change s i f (e (s.inode_table i))) refl h;
}

not_found :
    (b : Bool) (i : ℕ) (rest : Option ℕ)
    → (if b then some i else rest) ≡ none
    → (b ≡ false) × (rest ≡ none)
not_found true i rest e = absurd cc
not_found false i rest e = (refl, e)

slot_of-none :
    (k : ℕ) (slots : ℕ → Slot) (i dev nr : ℕ)
    → slot_of k slots i dev nr ≡ none
    → (j : ℕ) → i ≤ j
    → j < i + k
    → (slots j).i_dev ≡ dev
    → (slots j).i_num ≡ nr
    → ⊥
unfolding slot_of
slot_of-none zero slots i dev nr e j lo hi d n = absurd (omega arith)
slot_of-none (suc k) slots i dev nr e j lo hi d n =
    let (f, rest) = not_found _ i (slot_of k slots (i + 1) dev nr) e in
    elim (Bool-cases (i == j)) [
      | inl h ↦
          let g =
            subst (λ x. (((slots x).i_dev == dev) && ((slots x).i_num == nr)) ≡ false)
              (same_place i j h) f in
          ground (arith, g, d, n)
      | inr h ↦
          slot_of-none k slots (i + 1) dev nr rest j (ground (arith, h, lo)) (omega (arith, hi)) d n
    ]

-- Two slots of a table in which one has been replaced by `m`.
replaced :
    {goal : Type 0} (b c : Bool) (m x y : Slot)
    → (b ≡ true → c ≡ true → goal)
    → (x.i_dev ≡ m.i_dev → x.i_num ≡ m.i_num → goal)
    → (y.i_dev ≡ m.i_dev → y.i_num ≡ m.i_num → goal)
    → (0 < x.i_dev → x.i_dev ≡ y.i_dev → x.i_num ≡ y.i_num → goal)
    → 0 < (if b then m else x).i_dev
    → (if b then m else x).i_dev ≡ (if c then m else y).i_dev
    → (if b then m else x).i_num ≡ (if c then m else y).i_num
    → goal
replaced true true m x y both left right neither u d n = both refl refl
replaced true false m x y both left right neither u d n = right (sym d) (sym n)
replaced false true m x y both left right neither u d n = left d n
replaced false false m x y both left right neither u d n = neither u d n

low : {n : ℕ} → n < 2 ^ 16 → n % 2 ^ 16 ≡ n
low h = omega (arith, h)

pub Triple-assign :
    (empty dev nr : ℕ)
    → dev < 2 ^ 16
    → nr < 2 ^ 16
    → Triple
        (λ s. IsTable s × (slot_of 32 s.inode_table 0 dev nr ≡ none))
        (change empty (λ n. record n { i_dev = dev % 2 ^ 16; i_num = nr % 2 ^ 16 }))
        (λ r. IsTable)
unfolding change Ends
Triple-assign empty dev nr p q = record {
  at = λ s (h, e). record {
    unique = λ i j a b.
        replaced (i == empty) (j == empty) _ (s.inode_table i) (s.inode_table j)
          (λ v w. ground (arith, v, w))
          (λ v w.
            absurd
              (slot_of-none 32 s.inode_table 0 dev nr e i (omega arith) a (v ∙ low p) (w ∙ low q)))
          (λ v w.
            absurd
              (slot_of-none 32 s.inode_table 0 dev nr e j (omega arith) b (v ∙ low p) (w ∙ low q)))
          (h.unique i j a b);
    device = h.device;
  };
}
