-- ===== src/Fs/Table/Calls.antt =====
-- fs/inode.c: get_empty_inode, get_pipe_inode, iput and iget.
use linux_0_11_read.Prelude.{
  ℕ, zero, suc, ◌+◌, ◌-◌, ◌%◌, ◌^◌, List, [], ◌∷◌, Option, none, some, true, false, not, ◌&&◌, ◌==◌,
  ltb, leb, if◌then◌else◌, get_or, set, Kernel, done,
}
use linux_0_11_read.Fs.Calls.Action.{pure, gets, stop_machine, ◌>>=◌, ◌>>◌, choose, when_found}
use linux_0_11_read.Fs.Calls.Paths.{is_kind}
use linux_0_11_read.Fs.Table.{
  Slot, SuperBlock, Inodes, Below, nr_inode, empty_slot, slot_at, change, wait_for_ever,
  wait_on_inode, read_inode, write_inode,
}

-- The search, with the slots that are left, `last_inode`, and the free slot seen last.
unfoldable pub search_slot : ℕ → (ℕ → Slot) → ℕ → Option ℕ → ℕ × Option ℕ
search_slot zero slots last found = (last, found)
search_slot (suc k) slots last found =
    let next = if leb nr_inode (last + 1) then 0 else last + 1 in
    let free = (slots next).i_count == 0 in
    let rest = search_slot k slots next (if free then some next else found) in
    if free && not (slots next).i_dirt && not (slots next).i_lock then (next, some next) else rest

unfoldable pub set_last : ℕ → Kernel Inodes (Unit {0})
set_last i s = done tt (record s { last_inode = i })

-- The first slot of inode `nr` of `dev`.
unfoldable pub slot_of : ℕ → (ℕ → Slot) → ℕ → ℕ → ℕ → Option ℕ
slot_of zero slots i dev nr = none
slot_of (suc k) slots i dev nr =
    let rest = slot_of k slots (i + 1) dev nr in
    if ((slots i).i_dev == dev) && ((slots i).i_num == nr) then some i else rest

-- The superblock that is mounted on the slot, by its place.
unfoldable pub mounted_on : List SuperBlock → ℕ → ℕ → Option ℕ
mounted_on [] i k = none
mounted_on (b ∷ supers) i k =
    let rest = mounted_on supers i (k + 1) in
    elim b.s_imount [ none ↦ rest | some j ↦ if j == i then some k else rest ]

-- `super_block[k].s_dev`
unfoldable pub dev_at : List SuperBlock → ℕ → ℕ
dev_at [] k = 0
dev_at (b ∷ supers) zero = b.s_dev
dev_at (b ∷ supers) (suc k) = dev_at supers k

-- `i_count--` of a count that is not 0
abbrev pub one_use_less : Slot → Slot
one_use_less n = record n { i_count = n.i_count - 1 }

module _ (below : Below) where
  open below use {truncate, free_inode, sync_dev, free_page, get_free_page}

  -- `while (inode->i_dirt)`: the first write makes an inode with a device clean, and no write does
  -- so for one without.
  unfoldable pub clean_inode : ℕ → Kernel Inodes (Unit {0})
  clean_inode i = do
    n ← slot_at i
    choose n.i_dirt
        (do
          write_inode below i
          wait_on_inode i
          m ← slot_at i
          choose m.i_dirt wait_for_ever (pure tt))
        (pure tt)

  unfoldable pub get_empty_inode : Kernel Inodes ℕ
  get_empty_inode = do
    (last, found) ← gets (λ s. search_slot nr_inode s.inode_table s.last_inode none)
    set_last last
    when_found found stop_machine (λ i. do
      wait_on_inode i
      clean_inode i
      n ← slot_at i
      choose (n.i_count == 0) (do change i (λ m. record empty_slot { i_count = 1 }); pure i)
          wait_for_ever)

  unfoldable pub get_pipe_inode : Kernel Inodes (Option ℕ)
  get_pipe_inode = do
    i ← get_empty_inode
    page ← get_free_page
    change i (λ n. record n { on_disk = record n.on_disk { i_size = page } })
    choose (page == 0) (do change i (λ n. record n { i_count = 0 }); pure none)
        (do
          change i (λ n. record n {
            i_count = 2;
            on_disk = record n.on_disk { i_zone = set (set n.on_disk.i_zone 1 0) 0 0 };
            i_pipe = true;
          })
          pure (some i))

  -- From the label `repeat` on; an inode is dirty at most once.
  unfoldable pub drop_inode : ℕ → ℕ → Kernel Inodes (Unit {0})
  drop_inode zero i = wait_for_ever
  drop_inode (suc k) i = do
    n ← slot_at i
    choose (ltb 1 n.i_count) (change i one_use_less) (
        choose (n.on_disk.i_nlinks == 0) (do truncate i; free_inode i)
          (choose n.i_dirt (do write_inode below i; wait_on_inode i; drop_inode k i)
            (change i one_use_less)))

  unfoldable pub drop_pipe : ℕ → Slot → Kernel Inodes (Unit {0})
  drop_pipe i n = do
    change i one_use_less
    choose (n.i_count == 1)
        (do
          free_page n.on_disk.i_size
          change i (λ m. record m { i_count = 0; i_dirt = false; i_pipe = false }))
        (pure tt)

  unfoldable pub sync_block_device : ℕ → Slot → Kernel Inodes (Unit {0})
  sync_block_device i n =
      choose (is_kind 6 n.on_disk.i_mode)
        (do sync_dev (get_or n.on_disk.i_zone 0 0); wait_on_inode i) (pure tt)

  unfoldable pub iput : ℕ → Kernel Inodes (Unit {0})
  iput i = do
    wait_on_inode i
    n ← slot_at i
    choose (n.i_count == 0) stop_machine (
        choose n.i_pipe (drop_pipe i n) (
          choose (n.i_dev == 0) (change i one_use_less) (do sync_block_device i n; drop_inode 2 i)))

  -- The search of `iget` for an inode, from the start for each mount point on the way.
  unfoldable pub find_inode : ℕ → ℕ → ℕ → ℕ → Kernel Inodes ℕ
  find_inode zero empty dev nr = wait_for_ever
  find_inode (suc k) empty dev nr = do
    at ← gets (λ s. slot_of nr_inode s.inode_table 0 dev nr)
    when_found at
        (do
          change empty (λ n. record n { i_dev = dev % 2 ^ 16; i_num = nr % 2 ^ 16 })
          read_inode below empty
          pure empty)
        (λ i. do
          wait_on_inode i
          change i (λ n. record n { i_count = (n.i_count + 1) % 2 ^ 16 })
          n ← slot_at i
          super ← gets (λ s. mounted_on s.super_block i 0)
          choose (not n.i_mount) (do iput empty; pure i)
              (when_found super (do iput empty; pure i)
                (λ b. do
                  iput i
                  under ← gets (λ s. dev_at s.super_block b)
                  find_inode k empty under 1)))

  -- A chain of mount points has a superblock for each, of which there are NR_SUPER.
  unfoldable pub iget : ℕ → ℕ → Kernel Inodes ℕ
  iget dev nr =
      choose (dev == 0) stop_machine (do empty ← get_empty_inode; find_inode 9 empty dev nr)
