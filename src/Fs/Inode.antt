-- ===== src/Fs/Inode.antt =====
-- fs/inode.c: _bmap, the zones of a file. A block that `bread` finds is named by its device and
-- number; `brelse` has no effect on its bytes.
pub mod Zones
mod Tests
use linux_0_11_read.Prelude.{
  ℕ, zero, suc, ◌+◌, ◌-◌, ◌*◌, ◌/◌, ◌%◌, ◌^◌, List, [], ◌∷◌, ◌++◌, Bool, true, false, not, ◌&&◌,
  ◌||◌, ◌==◌, ltb, leb, slt, if◌then◌else◌, add32, is_neg, minus_one, length, drop, take, replicate,
  get_or, set, Kernel, Outcome, done, halted, panic, min,
}

pub record MInode : Type 0 where
  pub i_mode : ℕ
  pub i_size : ℕ
  pub i_dev : ℕ
  pub i_zone : List ℕ
  pub i_dirt : Bool
  pub i_atime : ℕ
  pub i_mtime : ℕ
  pub i_ctime : ℕ

-- The bytes of the blocks, as the buffers have them, and the zones that the bitmap says are in use;
-- both by the device and the number of the block.
pub record Store : Type 0 where
  pub byte : ℕ → ℕ → ℕ → ℕ
  pub used : ℕ → ℕ → Bool

-- `((unsigned short *) bh->b_data)[i]`
unfoldable pub short_at : Store → ℕ → ℕ → ℕ → ℕ
short_at s dev b i = s.byte dev b (2 * i) + 256 * s.byte dev b (2 * i + 1)

abbrev pub put_byte : Store → ℕ → ℕ → ℕ → ℕ → Store
put_byte s dev b k v = record s {
  byte = λ d c j. if (d == dev) && (c == b) && (j == k) then v else s.byte d c j;
}

unfoldable pub put_short : Store → ℕ → ℕ → ℕ → ℕ → Store
put_short s dev b i v =
    put_byte (put_byte s dev b (2 * i) (v % 256)) dev b (2 * i + 1) (v / 256 % 256)

abbrev pub zone_at : MInode → ℕ → ℕ
zone_at p n = get_or p.i_zone n 0

pub record Mapped : Type 0 where
  pub inode : MInode
  pub store : Store

-- CURRENT_TIME, the blocks that `bread` can read, and `new_block` of fs/bitmap.c.
module _ (now : ℕ) (readable : ℕ → ℕ → Bool) (new_block : ℕ → Store → ℕ × Store) where
  -- `if (create && !inode->i_zone[n])`
  unfoldable pub zone_made : Bool → ℕ → Mapped → Mapped
  zone_made create n s =
      let p = s.inode in
      let (nr, t) = new_block p.i_dev s.store in
      let z = nr % 2 ^ 16 in
      if create && (zone_at p n == 0)
      then record {
        inode =
            if z == 0
            then p
            else record p { i_zone = set p.i_zone n z; i_ctime = now; i_dirt = true };
        store = t;
      }
      else s

  -- The number at the place `i` of the block `b`, from `bread` to `brelse`.
  unfoldable pub indirect : Bool → ℕ → ℕ → ℕ → Store → ℕ × Store
  indirect create dev b i s =
      let (z, t) = new_block dev s in
      if not (readable dev b)
      then (0, s)
      else if create && (short_at s dev b i == 0)
      then (z, if z == 0 then t else put_short t dev b i z)
      else (short_at s dev b i, s)

  -- `_bmap`, for the blocks below 7, from 7 on, and from 7 + 512 on.
  unfoldable pub direct : Bool → ℕ → Mapped → ℕ × Mapped
  direct create block s = let t = zone_made create block s in (zone_at t.inode block, t)

  unfoldable pub single_indirect : Bool → ℕ → Mapped → ℕ × Mapped
  single_indirect create block s =
      let t = zone_made create 7 s in
      let (i, store) = indirect create t.inode.i_dev (zone_at t.inode 7) block t.store in
      if zone_at t.inode 7 == 0 then (0, t) else (i, record t { store = store })

  unfoldable pub double_indirect : Bool → ℕ → Mapped → ℕ × Mapped
  double_indirect create block s =
      let t = zone_made create 8 s in
      let dev = t.inode.i_dev in
      let (i, store) = indirect create dev (zone_at t.inode 8) (block / 512) t.store in
      let (j, store2) = indirect create dev i (block % 512) store in
      if zone_at t.inode 8 == 0
      then (0, t)
      else if i == 0
      then (0, record t { store = store })
      else (j, record t { store = store2 })

  unfoldable pub bmap_in : Bool → ℕ → Kernel Mapped ℕ
  bmap_in create block s =
      let (i, t) = direct create block s in
      let (j, u) = single_indirect create (block - 7) s in
      let (k, v) = double_indirect create (block - 7 - 512) s in
      if is_neg block || leb (7 + 512 + 512 * 512) block
      then halted panic s
      else if ltb block 7
      then done i t
      else if ltb (block - 7) 512
      then done j u
      else done k v

  abbrev pub bmap : ℕ → Kernel Mapped ℕ
  bmap block = bmap_in false block

  abbrev pub create_block : ℕ → Kernel Mapped ℕ
  create_block block = bmap_in true block
