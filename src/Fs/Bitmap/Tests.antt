-- ===== src/Fs/Bitmap/Tests.antt =====
-- Runs on a small disk, and the theorems there.
use linux_0_11_read.Prelude.{
  ℕ, ◌≡◌, refl, ◌∷◌, some, none, true, false, ltb, inl, arith, done, replicate,
}
use linux_0_11_read.Fs.Bitmap.{
  Cache, MapBlock, Super, Disk, first_clear, find_word, find_block, new_block, free_block, Inode,
  new_inode, free_inode, no_inode,
}
use linux_0_11_read.Fs.Bitmap.Bits.{bit_at}
use linux_0_11_read.Fs.Bitmap.Zones.{
  IsSuper, Allocated, Restored, new_block-Allocated, free_block-new_block,
}

-- A cache that has a buffer for every block and keeps none.
abbrev cache : Cache ℕ
cache = record {
  get_hash_table = λ dev block c. (none, c);
  getblk = λ dev block c. (some block, c);
  b_count = λ c h. 1;
  release = λ h c. c;
  forget = λ h c. c;
  clear = λ h c. c;
}

-- The bits 0 to 34 are set.
abbrev some_used : MapBlock
some_used = record { bits = λ z. ltb z 35; b_dirt = false }

abbrev small_super : Super
small_super = record {
  s_ninodes = 100;
  s_nzones = 500;
  s_firstdatazone = 20;
  s_imap = some some_used ∷ replicate 7 none;
  s_zmap = some some_used ∷ replicate 7 none;
}

abbrev disk : Disk ℕ
disk = record { super = λ d. some small_super; cache = 0 }

small-IsSuper : IsSuper small_super
unfolding bit_at
small-IsSuper = record { zones = omega arith; first_zone = omega arith; bit_0 = refl }

first_is_54 : (t : Disk ℕ) × (new_block cache 3 disk ≡ done 54 t)
unfolding new_block find_block find_word first_clear
first_is_54 = (_, refl)

new_block-Allocated_example : Allocated disk 3 small_super 54 first_is_54.0
unfolding first_is_54
new_block-Allocated_example =
    new_block-Allocated cache 3 disk small_super refl small-IsSuper first_is_54.1 (omega arith)

free_block-new_block_example :
    (u : Disk ℕ) × (free_block cache 3 54 first_is_54.0 ≡ done tt u) × Restored 3 small_super u
free_block-new_block_example =
    free_block-new_block cache 3 disk small_super refl small-IsSuper first_is_54.1 (omega arith)
      (inl refl)

new_inode_is_35 :
    (i : Inode) × (t : Disk ℕ) × (new_inode cache 3 true 7 8 9 disk ≡ done (some i) t)
    × (i.i_num ≡ 35)
unfolding new_inode find_block find_word first_clear
new_inode_is_35 = (_, _, refl, refl)

unused_is_cleared : free_inode cache no_inode disk ≡ done no_inode disk
unfolding free_inode
unused_is_cleared = refl
