-- ===== src/Fs/Device/Tests.antt =====
-- Bytes that are written across the end of a block, and read again.
use linux_0_11_read.Prelude.{ℕ, ◌≡◌, refl, [], ◌∷◌, Bool, true, ltb}
use linux_0_11_read.Fs.Inode.{Store}
use linux_0_11_read.Fs.Regular.{bytes_from, put_bytes}
use linux_0_11_read.Fs.Device.{block_read, block_read_loop, block_write, block_write_loop, eio}

-- A device of four blocks.
abbrev readable : ℕ → ℕ → Bool
readable dev b = ltb b 4

abbrev disk : Store
disk = record { byte = λ d b k. b; used = λ d b. true }

read_back :
    (block_read readable (block_write readable 2 (7 ∷ 8 ∷ 9 ∷ []) 2046 disk).2 2 5 2045).1
    ≡ 1 ∷ 7 ∷ 8 ∷ 9 ∷ 2 ∷ []
unfolding block_read block_read_loop block_write block_write_loop bytes_from put_bytes
read_back = refl

-- Behind the end of the device.
no_block : (block_read readable disk 2 5 4096).0 ≡ eio
unfolding block_read block_read_loop
no_block = refl

-- The end is in between.
cut_off : (block_read readable disk 2 5 4094).0 ≡ 2
unfolding block_read block_read_loop bytes_from
cut_off = refl
