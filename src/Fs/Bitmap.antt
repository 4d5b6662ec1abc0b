-- ===== src/Fs/Bitmap.antt =====
-- fs/bitmap.c: the bitmaps of zones and of inodes. The buffer cache is an interface: its functions
-- take the state of the cache, of a type `C`, and name a buffer by a number.
pub mod Zero
pub mod Bits
pub mod Zones
mod Tests
use linux_0_11_read.Prelude.{
  ℕ, zero, suc, ◌+◌, ◌-◌, ◌*◌, ◌/◌, ◌%◌, ◌^◌, List, [], ◌∷◌, Option, none, some, Bool, true, false,
  not, ◌&&◌, ◌||◌, ◌==◌, ltb, leb, if◌then◌else◌, add32, sub32, low_bits, get_or, set, Kernel,
  Outcome, done, halted, panic,
}

-- What fs/buffer.c gives: `release` is `brelse`, `forget` clears `b_dirt` and `b_uptodate`, and
-- `clear` is `clear_block` with both set.
pub record Cache (C : Type 0) : Type 0 where
  pub get_hash_table : ℕ → ℕ → C → Option ℕ × C
  pub getblk : ℕ → ℕ → C → Option ℕ × C
  pub b_count : C → ℕ → ℕ
  pub release : ℕ → C → C
  pub forget : ℕ → C → C
  pub clear : ℕ → C → C

-- A block of 8192 bits of a bitmap, in its buffer.
pub record MapBlock : Type 0 where
  pub bits : ℕ → Bool
  pub b_dirt : Bool

pub record Super : Type 0 where
  pub s_ninodes : ℕ
  pub s_nzones : ℕ
  pub s_firstdatazone : ℕ
  pub s_imap : List (Option MapBlock)
  pub s_zmap : List (Option MapBlock)

-- `super` is `get_super`.
pub record Disk (C : Type 0) : Type 0 where
  pub super : ℕ → Option Super
  pub cache : C

abbrev pub map_block : List (Option MapBlock) → ℕ → Option MapBlock
map_block m i = get_or m i none

abbrev pub put_bit : (ℕ → Bool) → ℕ → Bool → ℕ → Bool
put_bit bits nr v j = if nr == j then v else bits j

-- The block with bit `nr` changed, and marked dirty.
abbrev pub mark : MapBlock → ℕ → Bool → MapBlock
mark b nr v = record { bits = put_bit b.bits nr v; b_dirt = true }

-- `notl ; bsfl` on the word of `n` bits from `base` on: the first bit that is 0.
unfoldable pub first_clear : (ℕ → Bool) → ℕ → ℕ → Option ℕ
first_clear bits zero base = none
first_clear bits (suc n) base = if bits base then first_clear bits n (base + 1) else some base

-- `find_first_zero`, with the words that are left.
unfoldable pub find_word : (ℕ → Bool) → ℕ → ℕ → ℕ
find_word bits zero base = base
find_word bits (suc words) base = elim (first_clear bits 32 base) [
  | none ↦ find_word bits words (base + 32)
  | some k ↦ k
]

abbrev pub find_first_zero : (ℕ → Bool) → ℕ
find_first_zero bits = find_word bits 256 0

-- The loop over the 8 blocks of a map, with `n` left from `i` on: the block, its number and the bit.
unfoldable pub find_block : List (Option MapBlock) → ℕ → ℕ → Option (MapBlock × ℕ × ℕ)
find_block m zero i = none
find_block m (suc n) i =
    let rest = find_block m n (i + 1) in
    elim (map_block m i) [
      | none ↦ rest
      | some b ↦ let j = find_first_zero b.bits in if ltb j 8192 then some (b, i, j) else rest
    ]

module _ {C : Type 0} (ops : Cache C) where
  abbrev pub put_super : Disk C → ℕ → Super → Disk C
  put_super s dev sb = record s { super = λ d. if d == dev then some sb else s.super d }

  -- `free_block` behind the buffer of the block, for the bit of the block.
  abbrev pub clear_zone : ℕ → Super → ℕ → Kernel (Disk C) (Unit {0})
  clear_zone dev sb block s = elim (map_block sb.s_zmap (block / 8192)) [
    | none ↦ halted panic s
    | some b ↦
        if not (b.bits (low_bits block 13))
        then halted panic s
        else done tt (
            put_super s dev (record sb {
              s_zmap = set sb.s_zmap (block / 8192) (some (mark b (low_bits block 13) false));
            }))
  ]

  unfoldable pub free_block : ℕ → ℕ → Kernel (Disk C) (Unit {0})
  free_block dev block s = elim (s.super dev) [
    | none ↦ halted panic s
    | some sb ↦
        if ltb block sb.s_firstdatazone || leb sb.s_nzones block
        then halted panic s
        else let (bh, cache) = ops.get_hash_table dev block s.cache in
          let bit = sub32 block (sub32 sb.s_firstdatazone 1) in
          elim bh [
            | none ↦ clear_zone dev sb bit (record s { cache = cache })
            | some h ↦
                if not (ops.b_count cache h == 1)
                then done tt (record s { cache = cache })
                else clear_zone dev sb bit (record s { cache = ops.release h (ops.forget h cache) })
          ]
  ]

  -- `new_block` behind the bitmap, for the block `j`.
  abbrev pub fetch_block : ℕ → ℕ → Kernel (Disk C) ℕ
  fetch_block dev j s =
      let (bh, cache) = ops.getblk dev j s.cache in
      let t = record s { cache = cache } in
      elim bh [
        | none ↦ halted panic t
        | some h ↦
            if not (ops.b_count cache h == 1)
            then halted panic t
            else done j (record s { cache = ops.release h (ops.clear h cache) })
      ]

  unfoldable pub new_block : ℕ → Kernel (Disk C) ℕ
  new_block dev s = elim (s.super dev) [
    | none ↦ halted panic s
    | some sb ↦ elim (find_block sb.s_zmap 8 0) [
      | none ↦ done 0 s
      | some (b, i, j) ↦
          if b.bits j
          then halted panic s
          else let t =
              put_super s dev (record sb { s_zmap = set sb.s_zmap i (some (mark b j true)) }) in
            let block = add32 j (sub32 (i * 8192 + sb.s_firstdatazone) 1) in
            if leb sb.s_nzones block then done 0 t else fetch_block dev block t
    ]
  ]

-- The fields of `struct m_inode` that are read or written here.
pub record Inode : Type 0 where
  pub i_dev : ℕ
  pub i_num : ℕ
  pub i_count : ℕ
  pub i_nlinks : ℕ
  pub i_dirt : Bool
  pub i_uid : ℕ
  pub i_gid : ℕ
  pub i_mtime : ℕ
  pub i_atime : ℕ
  pub i_ctime : ℕ

-- `memset(inode,0,sizeof(*inode))`
abbrev pub no_inode : Inode
no_inode = record {
  i_dev = 0;
  i_num = 0;
  i_count = 0;
  i_nlinks = 0;
  i_dirt = false;
  i_uid = 0;
  i_gid = 0;
  i_mtime = 0;
  i_atime = 0;
  i_ctime = 0;
}

module _ {C : Type 0} (ops : Cache C) where
  -- The inode after `free_inode`. A bit that is clear already is only reported.
  unfoldable pub free_inode : Inode → Kernel (Disk C) Inode
  free_inode inode s =
      if inode.i_dev == 0
      then done no_inode s
      else if ltb 1 inode.i_count || not (inode.i_nlinks == 0)
      then halted panic s
      else elim (s.super inode.i_dev) [
        | none ↦ halted panic s
        | some sb ↦
            if ltb inode.i_num 1 || ltb sb.s_ninodes inode.i_num
            then halted panic s
            else elim (map_block sb.s_imap (inode.i_num / 8192)) [
              | none ↦ halted panic s
              | some b ↦ done no_inode (
                  put_super ops s inode.i_dev (record sb {
                    s_imap =
                        set sb.s_imap (inode.i_num / 8192)
                          (some (mark b (low_bits inode.i_num 13) false));
                  }))
            ]
      ]

  -- `empty` says whether `get_empty_inode` gave an inode, which goes back to `iput` if the call fails;
  -- `uid`, `gid` and `now` are the effective ids and CURRENT_TIME.
  unfoldable pub new_inode : ℕ → Bool → (uid gid now : ℕ) → Kernel (Disk C) (Option Inode)
  new_inode dev empty uid gid now s = if not empty then done none s else elim (s.super dev) [
    | none ↦ halted panic s
    | some sb ↦ elim (find_block sb.s_imap 8 0) [
      | none ↦ done none s
      | some (b, i, j) ↦
          if ltb sb.s_ninodes (j + i * 8192)
          then done none s
          else if b.bits j
          then halted panic s
          else done
              (some (record {
                i_dev = dev;
                i_num = j + i * 8192;
                i_count = 1;
                i_nlinks = 1;
                i_dirt = true;
                i_uid = uid;
                i_gid = low_bits gid 8;
                i_mtime = now;
                i_atime = now;
                i_ctime = now;
              }))
              (put_super ops s dev (record sb { s_imap = set sb.s_imap i (some (mark b j true)) }))
    ]
  ]
