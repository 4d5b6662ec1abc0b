-- ===== src/Fs/Files/Tests.antt =====
-- Runs of the descriptor calls, and the theorems for two descriptors of one file.
use linux_0_11_read.Prelude.{ℕ, ◌≡◌, refl, [], ◌∷◌, some, none, done, replicate, false}
use linux_0_11_read.Fs.Files.{File, Files, no_file, free_fd, sys_close, sys_fcntl}

abbrev shared_file : File
shared_file = record { f_mode = 0; f_flags = 2; f_count = 2; f_inode = 7; f_pos = 0 }

-- Descriptors 0 and 1 are open on file 0.
abbrev two_open : Files
two_open = record {
  filp = some 0 ∷ some 0 ∷ replicate 18 none;
  close_on_exec = replicate 20 false;
  file_table = shared_file ∷ replicate 63 no_file;
  put = [];
}

abbrev none_held : ℕ → ℕ
none_held f = 0

third_is_2 : free_fd 20 two_open.filp 0 ≡ 2
unfolding free_fd
third_is_2 = refl

flags_of_1 : sys_fcntl 1 3 0 two_open ≡ done 2 two_open
unfolding sys_fcntl
flags_of_1 = refl

-- The last close hands the inode to `iput`.
closed_put :
    (t : Files) × (u : Files) × (sys_close 0 two_open ≡ done 0 t)
    × (sys_close 1 t ≡ done 0 u)
    × (t.put ≡ [])
    × (u.put ≡ 7 ∷ [])
unfolding sys_close
closed_put = (_, _, refl, refl, refl, refl)
