-- ===== src/Fs/Table/Tests.antt =====
-- A table of inodes on a disk with one device.
use linux_0_11_read.Prelude.{
  ℕ, suc, zero, ◌+◌, ◌^◌, ◌<◌, ◌≡◌, refl, [], ◌∷◌, none, true, arith, replicate, Outcome, done,
  halted,
}
use linux_0_11_read.Fs.Calls.Action.{pure, gets, ◌>>=◌, choose, when_found}
use linux_0_11_read.Fs.Table.{
  DInode, Inodes, Below, empty_slot, slot_at, change, wait_on_inode, lock_inode, unlock_inode,
  super_on, with_block, read_inode,
}
use linux_0_11_read.Fs.Table.Calls.{
  search_slot, set_last, slot_of, mounted_on, dev_at, clean_inode, get_empty_inode, get_pipe_inode,
  drop_inode, sync_block_device, iput, find_inode, iget,
}
use linux_0_11_read.Fs.Table.Triple.{Triple-pure}
use linux_0_11_read.Fs.Table.Counts.{cleared, KeepsCounts, Triple-change}
use linux_0_11_read.Fs.Table.Uses.{iget-uses, iput-iget}
use linux_0_11_read.Fs.Table.Unique.{IsTable, KeepsTable, Triple-left}
use linux_0_11_read.Fs.Table.Once.{iget-IsTable}

abbrev others : Below
others = record {
  truncate = λ i. pure tt;
  free_inode = λ i. change i (λ n. empty_slot);
  sync_dev = λ dev. pure tt;
  free_page = λ page. pure tt;
  get_free_page = pure 4096;
  can_read = λ dev block. true;
}

others-KeepsCounts : KeepsCounts others
others-KeepsCounts = record {
  truncate = λ c i. Triple-pure tt;
  free_inode =
      λ c i. Triple-change c (cleared c i) i _ (λ n h. ground arith) (λ j h. ground (arith, h));
  sync_dev = λ c dev. Triple-pure tt;
  free_page = λ c page. Triple-pure tt;
}

others-KeepsTable : KeepsTable others
others-KeepsTable = record {
  truncate = λ i. Triple-pure tt;
  free_inode = λ i. Triple-left i _ (λ n. record { at = λ u. absurd (omega (arith, u)) });
  sync_dev = λ dev. Triple-pure tt;
  free_page = λ page. Triple-pure tt;
}

-- The inode `nr` of the disk is a file with `nr` links.
abbrev file_with : ℕ → DInode
file_with nr = record {
  i_mode = 0o100644;
  i_uid = 0;
  i_size = 10;
  i_mtime = 0;
  i_gid = 0;
  i_nlinks = nr;
  i_zone = replicate 9 0;
}

abbrev start : Inodes
start = record {
  inode_table = λ i. empty_slot;
  last_inode = 0;
  super_block = record { s_dev = 2; s_imap_blocks = 1; s_zmap_blocks = 1; s_imount = none } ∷ [];
  in_block = λ dev block place. file_with (place + 1);
}

start-IsTable : IsTable start
unfolding dev_at
start-IsTable = record {
  unique = λ i j p q u d n. absurd (omega (arith, u));
  device = λ k. small_device k;
}
  where
    small_device : (k : ℕ) → dev_at start.super_block k < 2 ^ 16
    small_device zero = omega arith
    small_device (suc k) = omega arith

abbrev after : {A : Type 0} → Outcome Inodes A → Inodes
after (done a s) = s
after (halted h s) = s

abbrev once : Inodes
once = after (iget others 2 3 start)

-- The inode 3 gets the slot 1, is read, and found there again.
iget-twice :
    (iget others 2 3 start ≡ done 1 once)
    × (((once.inode_table 1).on_disk.i_nlinks ≡ 3)
        × (((after (iget others 2 3 once)).inode_table 1).i_count ≡ 2))
unfolding iget find_inode get_empty_inode clean_inode search_slot set_last slot_of slot_at change
    wait_on_inode lock_inode unlock_inode super_on with_block read_inode pure gets ◌>>=◌ choose
    when_found mounted_on iput
iget-twice = (refl, (refl, refl))

iget-IsTable_example : IsTable once
unfolding iget find_inode get_empty_inode clean_inode search_slot set_last slot_of slot_at change
    wait_on_inode lock_inode unlock_inode super_on with_block read_inode pure gets ◌>>=◌ choose
    when_found mounted_on iput
iget-IsTable_example =
    iget-IsTable others others-KeepsTable 2 3 start once 1 (omega arith) (omega arith) start-IsTable
      refl

iget-uses_example : (once.inode_table 1).i_count ≡ 1
unfolding iget find_inode get_empty_inode clean_inode search_slot set_last slot_of slot_at change
    wait_on_inode lock_inode unlock_inode super_on with_block read_inode pure gets ◌>>=◌ choose
    when_found mounted_on iput
iget-uses_example = iget-uses others others-KeepsCounts 2 3 start once 1 (λ i. omega arith) refl 1

iput-iget_example : ((after (iput others 1 once)).inode_table 1).i_count ≡ 0
unfolding iget find_inode get_empty_inode clean_inode search_slot set_last slot_of slot_at change
    wait_on_inode lock_inode unlock_inode super_on with_block read_inode pure gets ◌>>=◌ choose
    when_found mounted_on iput sync_block_device drop_inode
iput-iget_example =
    iput-iget others others-KeepsCounts 2 3 start once (after (iput others 1 once)) 1
      (λ i. omega arith) refl refl 1

-- A pipe has two uses, and a count of 0 stops the machine.
pipe-uses : ((after (get_pipe_inode others start)).inode_table 1).i_count ≡ 2
unfolding get_pipe_inode get_empty_inode clean_inode search_slot set_last slot_at change
    wait_on_inode pure gets ◌>>=◌ choose when_found
pipe-uses = refl
