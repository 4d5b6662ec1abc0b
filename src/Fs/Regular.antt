-- ===== src/Fs/Regular.antt =====
-- fs/file_dev.c: a regular file is read and written, by its zones. A position is not negative.
pub mod Bytes
mod Tests
use linux_0_11_read.Prelude.{
  ℕ, zero, suc, ◌+◌, ◌-◌, ◌*◌, ◌/◌, ◌%◌, ◌^◌, List, [], ◌∷◌, ◌++◌, Bool, true, false, not, ◌&&◌,
  ◌||◌, ◌==◌, ltb, leb, slt, if◌then◌else◌, add32, neg32, is_neg, minus_one, length, take, drop,
  replicate, Kernel, Outcome, done, halted, min,
}
use linux_0_11_read.Fs.Inode.{MInode, Store, Mapped, put_byte, bmap, create_block}

-- The file behind a descriptor.
pub record Io : Type 0 where
  pub mapped : Mapped
  pub f_pos : ℕ
  pub f_flags : ℕ

-- The `n` bytes of a block from `k` on.
unfoldable pub bytes_from : Store → ℕ → ℕ → ℕ → ℕ → List ℕ
bytes_from s dev b k zero = []
bytes_from s dev b k (suc n) = s.byte dev b k ∷ bytes_from s dev b (k + 1) n

unfoldable pub put_bytes : Store → ℕ → ℕ → ℕ → List ℕ → Store
put_bytes s dev b k [] = s
put_bytes s dev b k (v ∷ vs) = put_bytes (put_byte s dev b k v) dev b (k + 1) vs

-- What a read does to the inode, at the time `now`.
abbrev pub accessed : ℕ → Io → Io
accessed now s = record s {
  mapped = record s.mapped { inode = record s.mapped.inode { i_atime = now } };
}

-- O_APPEND
abbrev pub is_append : ℕ → Bool
is_append flags = flags / 0o2000 % 2 == 1

abbrev pub modified : ℕ → Bool → MInode → MInode
modified now append p =
    if append then record p { i_mtime = now } else record p { i_mtime = now; i_ctime = now }

-- CURRENT_TIME, the blocks that `bread` can read, and `new_block`.
module _ (now : ℕ) (readable : ℕ → ℕ → Bool) (new_block : ℕ → Store → ℕ × Store) where
  -- The loop of `file_read`, with the number of bytes left and those for the user. A round takes a byte
  -- at least, so that one more round than bytes is enough.
  unfoldable pub file_read_loop : ℕ → ℕ → List ℕ → Kernel Io (ℕ × List ℕ)
  file_read_loop zero left got s = done (left, got) s
  file_read_loop (suc n) left got s =
      let p = s.mapped.inode in
      let k = s.f_pos % 1024 in
      let chars = min (1024 - k) left in
      if left == 0
      then done (0, got) s
      else elim (bmap now readable new_block (s.f_pos / 1024) s.mapped) [
        | halted h t ↦ halted h (record s { mapped = t })
        | done nr t ↦
            if not (nr == 0) && not (readable p.i_dev nr)
            then done (left, got) s
            else file_read_loop n (left - chars)
                (got
                  ++ (if nr == 0
                      then replicate chars 0
                      else bytes_from s.mapped.store p.i_dev nr k chars))
                (record s { f_pos = add32 s.f_pos chars })
      ]

  -- ERROR is 99.
  unfoldable pub file_read : ℕ → Kernel Io (ℕ × List ℕ)
  file_read count s =
      if not (slt 0 count) then done (0, []) s else elim (file_read_loop (suc count) count [] s) [
        | halted h t ↦ halted h t
        | done (left, got) t ↦
            done (if count - left == 0 then neg32 99 else count - left, got) (accessed now t)
      ]

  -- What is written of the block that create_block gives, behind the position `pos`.
  abbrev pub write_block : ℕ → ℕ → ℕ → List ℕ → Mapped → Mapped
  write_block pos nr c chunk m =
      let p = m.inode in
      let end = add32 pos c in
      record {
        inode = if ltb p.i_size end then record p { i_size = end; i_dirt = true } else p;
        store = put_bytes m.store p.i_dev nr (pos % 1024) chunk;
      }

  -- The loop of `file_write`, with the position, the bytes that are left and `i`. A round takes a byte at
  -- least.
  unfoldable pub file_write_loop : ℕ → ℕ → List ℕ → ℕ → Kernel Mapped (ℕ × ℕ)
  file_write_loop zero pos left i m = done (pos, i) m
  file_write_loop (suc n) pos left i m =
      let c = min (1024 - pos % 1024) (length left) in
      if length left == 0
      then done (pos, i) m
      else elim (create_block now readable new_block (pos / 1024) m) [
        | halted h t ↦ halted h t
        | done nr t ↦
            if (nr == 0) || not (readable t.inode.i_dev nr)
            then done (pos, i) t
            else file_write_loop n (add32 pos c) (drop c left) (i + c)
                (write_block pos nr c (take c left) t)
      ]

  unfoldable pub file_write : List ℕ → Kernel Io ℕ
  file_write bytes s =
      let append = is_append s.f_flags in
      let start = if append then s.mapped.inode.i_size else s.f_pos in
      elim (file_write_loop (suc (length bytes)) start bytes 0 s.mapped) [
        | halted h t ↦ halted h (record s { mapped = t })
        | done (pos, i) t ↦ done (if i == 0 then minus_one else i) (record s {
          mapped = record t { inode = modified now append t.inode };
          f_pos = if append then s.f_pos else pos;
        })
      ]
