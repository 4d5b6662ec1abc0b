-- ===== src/Fs/Device.antt =====
-- fs/block_dev.c: the bytes of a block device, by its blocks. A position is not negative.
mod Tests
use linux_0_11_read.Prelude.{
  ℕ, zero, suc, ◌+◌, ◌-◌, ◌*◌, ◌/◌, ◌%◌, List, [], ◌∷◌, ◌++◌, Bool, true, false, not, ◌&&◌, ◌||◌,
  ◌==◌, if◌then◌else◌, add32, neg32, length, take, drop, min,
}
use linux_0_11_read.Fs.Inode.{Store}
use linux_0_11_read.Fs.Regular.{bytes_from, put_bytes}

-- -EIO
abbrev pub eio : ℕ
eio = neg32 5

-- The loop of `block_read`, on one round more than bytes: the bytes for the user, and `*pos`.
unfoldable pub block_read_loop : (ℕ → ℕ → Bool) → Store → ℕ → ℕ → ℕ → ℕ → ℕ → ℕ → List ℕ × ℕ
block_read_loop readable s dev zero block offset count pos = ([], pos)
block_read_loop readable s dev (suc n) block offset count pos =
    let chars = min (1024 - offset) count in
    let (bytes, end) =
      block_read_loop readable s dev n (block + 1) 0 (count - chars) (add32 pos chars) in
    if (count == 0) || not (readable dev block)
    then ([], pos)
    else (bytes_from s dev block offset chars ++ bytes, end)

-- The result, the bytes and `*pos`. A call for no bytes returns 0.
unfoldable pub block_read : (ℕ → ℕ → Bool) → Store → ℕ → ℕ → ℕ → ℕ × List ℕ × ℕ
block_read readable s dev count pos =
    let (bytes, end) =
      block_read_loop readable s dev (suc count) (pos / 1024) (pos % 1024) count pos in
    (if (length bytes == 0) && not (count == 0) then eio else length bytes, bytes, end)

-- The loop of `block_write`, with the bytes that are left: how many are written, `*pos` and the blocks.
-- A whole block is not read before.
unfoldable pub block_write_loop :
    (ℕ → ℕ → Bool) → ℕ → ℕ → ℕ → ℕ → List ℕ → ℕ → Store → ℕ × ℕ × Store
block_write_loop readable dev zero block offset left pos s = (0, pos, s)
block_write_loop readable dev (suc n) block offset left pos s =
    let chars = min (1024 - offset) (length left) in
    let (written, end, t) =
      block_write_loop readable dev n (block + 1) 0 (drop chars left) (add32 pos chars)
        (put_bytes s dev block offset (take chars left)) in
    if (length left == 0) || (not (chars == 1024) && not (readable dev block))
    then (0, pos, s)
    else (chars + written, end, t)

unfoldable pub block_write : (ℕ → ℕ → Bool) → ℕ → List ℕ → ℕ → Store → ℕ × ℕ × Store
block_write readable dev bytes pos s =
    let (written, end, t) =
      block_write_loop readable dev (suc (length bytes)) (pos / 1024) (pos % 1024) bytes pos s in
    (if (written == 0) && not (length bytes == 0) then eio else written, end, t)
