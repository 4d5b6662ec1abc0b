-- ===== src/Fs/Regular/Tests.antt =====
-- A file that is written and read, and the theorem on it.
use linux_0_11_read.Prelude.{
  ℕ, ◌+◌, ◌≡◌, refl, List, [], ◌∷◌, ◌==◌, if◌then◌else◌, true, false, arith, replicate, Outcome,
  done, halted,
}
use linux_0_11_read.Fs.Inode.{Store, zone_made, direct, bmap_in}
use linux_0_11_read.Fs.Regular.{
  Io, bytes_from, put_bytes, file_read, file_read_loop, file_write, file_write_loop, accessed,
}
use linux_0_11_read.Fs.Regular.Bytes.{file_bytes, file_byte, zone_of, file_read-file_bytes}

-- The zones 60 and on are taken, for the block that is made.
abbrev next_zone : ℕ → Store → ℕ × Store
next_zone dev s = (
  60 + s.byte 0 0 0,
  record s { byte = λ d b k. if b == 0 then s.byte d b k + 1 else s.byte d b k },
)

-- The file has its blocks 0 and 2, in the zones 40 and 41, and a hole between them.
abbrev holed : Io
holed = record {
  mapped = record {
    inode = record {
      i_mode = 0o100644;
      i_size = 3072;
      i_dev = 1;
      i_zone = 40 ∷ 0 ∷ 41 ∷ replicate 6 0;
      i_dirt = false;
      i_atime = 0;
      i_mtime = 0;
      i_ctime = 0;
    };
    store = record { byte = λ d b k. b + k; used = λ d b. true };
  };
  f_pos = 1022;
  f_flags = 0;
}

-- The bytes 1022 to 1025.
holed_bytes : file_bytes 9 (λ d b. true) next_zone holed.mapped 1022 4 ≡ 1062 ∷ 1063 ∷ 0 ∷ 0 ∷ []
unfolding file_bytes file_byte zone_of bmap_in direct zone_made
holed_bytes = refl

abbrev written : Outcome Io ℕ
written = file_write 9 (λ d b. true) next_zone (5 ∷ 6 ∷ 7 ∷ []) holed

abbrev state : Outcome Io ℕ → Io
state (done a s) = s
state (halted h s) = s

abbrev answer : Outcome Io (ℕ × List ℕ) → ℕ × List ℕ
answer (done a s) = a
answer (halted h s) = (0, [])

-- What is written across the end of a block is read again.
read_again :
    answer (file_read 9 (λ d b. true) next_zone 3 (record (state written) { f_pos = 1022 }))
    ≡ (3, 5 ∷ 6 ∷ 7 ∷ [])
unfolding file_read file_read_loop file_write file_write_loop bytes_from put_bytes bmap_in direct
    zone_made
read_again = refl

file_read-file_bytes_example :
    file_read 9 (λ d b. true) next_zone 4 holed
    ≡ done
        (4, file_bytes 9 (λ d b. true) next_zone holed.mapped 1022 4)
        (accessed 9 (record holed { f_pos = 1026 }))
file_read-file_bytes_example =
    file_read-file_bytes 9 (λ d b. true) next_zone 4 holed (λ block nz. refl) (omega arith)
      (omega arith) (omega arith)
