-- ===== src/Fs/Names/Tests.antt =====
-- A directory to which entries are added, and found again.
use linux_0_11_read.Prelude.{
  arith, ℕ, ◌≡◌, refl, List, [], ◌∷◌, Option, none, some, false, true, replicate, Outcome, done,
  halted, if◌then◌else◌, ◌==◌,
}
use linux_0_11_read.Fs.Inode.{Store, Mapped, short_at, put_short}
use linux_0_11_read.Fs.Regular.{put_bytes}
use linux_0_11_read.Fs.Names.{
  Above, entry_block, find_loop, find_entry, add_loop, add_entry, matches, same_bytes, traverse,
}
use linux_0_11_read.Fs.Names.Entries.{add_entry-matches}

abbrev allocate : ℕ → Store → ℕ × Store
allocate dev s = (0, s)

-- Two entries: `.` of the inode 7, and one that is not in use.
abbrev folder : Mapped
folder = record {
  inode = record {
    i_mode = 0o040755;
    i_size = 32;
    i_dev = 1;
    i_zone = 40 ∷ replicate 8 0;
    i_dirt = false;
    i_atime = 0;
    i_mtime = 0;
    i_ctime = 0;
  };
  store = record {
    byte = λ d b k. if k == 0 then 7 else if k == 2 then b'.' else 0;
    used = λ d b. true;
  };
}

abbrev above : Above
above = record { is_root = true; i_num = 1; s_imount = none }

abbrev place_of : Outcome Mapped (Option (ℕ × ℕ)) → Option (ℕ × ℕ)
place_of (done a s) = a
place_of (halted h s) = none

abbrev state : Outcome Mapped (Option (ℕ × ℕ)) → Mapped
state (done a s) = s
state (halted h s) = s

abbrev name : List ℕ
name = b'a' ∷ b'b' ∷ []

abbrev added : Outcome Mapped (Option (ℕ × ℕ))
added = add_entry 5 (λ d b. true) allocate name folder

-- The caller puts the inode into the entry.
abbrev linked : Mapped
linked = record (state added) { store = put_short (state added).store 1 40 8 9 }

free_entry : place_of added ≡ some (40, 1)
unfolding add_entry add_loop put_short put_bytes short_at
free_entry = refl

found : place_of (find_entry 5 (λ d b. true) allocate above name linked) ≡ some (40, 1)
unfolding find_entry find_loop entry_block matches same_bytes traverse add_entry add_loop put_short
    put_bytes short_at
found = refl

-- A longer name is another one, and `..` of the root is `.`.
longer : place_of (find_entry 5 (λ d b. true) allocate above (b'a' ∷ []) linked) ≡ none
unfolding find_entry find_loop entry_block matches same_bytes traverse add_entry add_loop put_short
    put_bytes short_at
longer = refl

top : place_of (find_entry 5 (λ d b. true) allocate above (b'.' ∷ b'.' ∷ []) linked) ≡ some (40, 0)
unfolding find_entry find_loop entry_block matches same_bytes traverse add_entry add_loop put_short
    put_bytes short_at
top = refl

add_entry-matches_example : matches (put_short (state added).store 1 40 8 9) 1 40 1 name ≡ true
unfolding add_entry add_loop put_short put_bytes short_at
add_entry-matches_example =
    add_entry-matches 5 (λ d b. true) allocate 9 (omega arith) (omega arith) name folder
      (state added) 40 1 refl
