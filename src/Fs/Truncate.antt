-- ===== src/Fs/Truncate.antt =====
-- fs/truncate.c: the zones of a file are freed. `free_block` of fs/bitmap.c is a parameter.
mod Tests
use linux_0_11_read.Prelude.{
  ℕ, zero, suc, ◌+◌, ◌/◌, ◌%◌, List, Bool, true, false, not, ◌||◌, ◌==◌, if◌then◌else◌, set, Kernel,
  Outcome, done, halted, ◌>>=◌, ◌>>◌, return, get, modify,
}
use linux_0_11_read.Fs.Inode.{MInode, Store, Mapped, short_at, zone_at}

-- S_ISREG and S_ISDIR
abbrev pub has_type : ℕ → ℕ → Bool
has_type mode kind = mode / 4096 % 16 == kind

abbrev pub emptied : ℕ → Mapped → Mapped
emptied now s = record s {
  inode = record s.inode {
    i_zone = set (set s.inode.i_zone 8 0) 7 0;
    i_size = 0;
    i_dirt = true;
    i_mtime = now;
    i_ctime = now;
  };
}

-- A call that changes blocks only.
abbrev pub on_store : Kernel Store (Unit {0}) → Kernel Mapped (Unit {0})
on_store call s = elim (call s.store) [
  | done a t ↦ done a (record s { store = t })
  | halted h t ↦ halted h (record s { store = t })
]

abbrev pub clear_zone_of : ℕ → Mapped → Mapped
clear_zone_of i s = record s { inode = record s.inode { i_zone = set s.inode.i_zone i 0 } }

-- CURRENT_TIME, the blocks that `bread` can read, and `free_block`.
module _ (now : ℕ) (readable : ℕ → ℕ → Bool) (free_block : ℕ → ℕ → Kernel Store (Unit {0})) where
  -- The loops over the 512 numbers of a block, with `n` left from `i` on.
  unfoldable pub free_words :
      (ℕ → ℕ → Kernel Store (Unit {0})) → ℕ → ℕ → ℕ → ℕ → Kernel Store (Unit {0})
  free_words free dev block zero i = return tt
  free_words free dev block (suc n) i = get >>= λ s.
      (if short_at s dev block i == 0 then return tt else free dev (short_at s dev block i))
      >> free_words free dev block n (i + 1)

  abbrev pub free_all : (ℕ → ℕ → Kernel Store (Unit {0})) → ℕ → ℕ → Kernel Store (Unit {0})
  free_all free dev block =
      if block == 0
      then return tt
      else (if readable dev block then free_words free dev block 512 0 else return tt)
        >> free_block dev block

  abbrev pub free_ind : ℕ → ℕ → Kernel Store (Unit {0})
  free_ind dev block = free_all free_block dev block

  abbrev pub free_dind : ℕ → ℕ → Kernel Store (Unit {0})
  free_dind dev block = free_all free_ind dev block

  -- The loop over i_zone[0] to i_zone[6].
  unfoldable pub free_direct : ℕ → ℕ → Kernel Mapped (Unit {0})
  free_direct zero i = return tt
  free_direct (suc n) i = get >>= λ s.
      (if zone_at s.inode i == 0
        then return tt
        else on_store (free_block s.inode.i_dev (zone_at s.inode i)) >> modify (clear_zone_of i))
      >> free_direct n (i + 1)

  unfoldable pub truncate : Kernel Mapped (Unit {0})
  truncate s =
      if not (has_type s.inode.i_mode 8 || has_type s.inode.i_mode 4)
      then done tt s
      else (free_direct 7 0
            >> (get >>= λ t. on_store (free_ind t.inode.i_dev (zone_at t.inode 7)))
            >> (get >>= λ t. on_store (free_dind t.inode.i_dev (zone_at t.inode 8)))
            >> modify (emptied now))
          s
