-- ===== src/Fs/Files.antt =====
-- fs/fcntl.c and `sys_close` of fs/open.c: the descriptors of the current process and the file
-- table. A `struct file *` is an index into `file_table`.
pub mod Free
pub mod Count
mod Tests
use linux_0_11_read.Prelude.{
  ℕ, zero, suc, ◌+◌, ◌-◌, ◌*◌, ◌/◌, ◌%◌, ◌^◌, List, [], ◌∷◌, Option, none, some, Bool, true, false,
  neg32, minus_one, leb, ◌==◌, if◌then◌else◌, get_or, set, Kernel, Outcome, done, halted, panic,
  ◌>>=◌, ◌>>◌,
}

-- `struct file`
pub record File : Type 0 where
  pub f_mode : ℕ
  pub f_flags : ℕ
  pub f_count : ℕ
  pub f_inode : ℕ
  pub f_pos : ℕ

-- `current->filp`, the bits of `current->close_on_exec`, `file_table`, and the inodes that have been
-- handed to `iput`, the last first.
pub record Files : Type 0 where
  pub filp : List (Option ℕ)
  pub close_on_exec : List Bool
  pub file_table : List File
  pub put : List ℕ

abbrev pub nr_open : ℕ
nr_open = 20

abbrev pub nr_file : ℕ
nr_file = 64

abbrev pub ebadf : ℕ
ebadf = neg32 9

abbrev pub einval : ℕ
einval = neg32 22

abbrev pub emfile : ℕ
emfile = neg32 24

abbrev pub no_file : File
no_file = record { f_mode = 0; f_flags = 0; f_count = 0; f_inode = 0; f_pos = 0 }

abbrev pub file_at : Files → ℕ → File
file_at s f = get_or s.file_table f no_file

abbrev pub fd_at : Files → ℕ → Option ℕ
fd_at s fd = get_or s.filp fd none

-- `while (arg < NR_OPEN)`, with the rounds that are left.
unfoldable pub free_fd : ℕ → List (Option ℕ) → ℕ → ℕ
free_fd zero filp arg = arg
free_fd (suc n) filp arg = elim (get_or filp arg none) [
  | none ↦ arg
  | some f ↦ free_fd n filp (arg + 1)
]

-- `f_count` is an unsigned short.
abbrev pub set_count : Files → ℕ → ℕ → List File
set_count s f count = set s.file_table f (record (file_at s f) { f_count = count % 2 ^ 16 })

-- The last lines of `dupfd`, for the file `f`.
abbrev pub install : ℕ → ℕ → Kernel Files ℕ
install f arg s = done arg (record s {
  close_on_exec = set s.close_on_exec arg false;
  filp = set s.filp arg (some f);
  file_table = set_count s f ((file_at s f).f_count + 1);
})

unfoldable pub dupfd : ℕ → ℕ → Kernel Files ℕ
dupfd fd arg s = if leb nr_open fd then done ebadf s else elim (fd_at s fd) [
  | none ↦ done ebadf s
  | some f ↦
      if leb nr_open arg
      then done einval s
      else let free = free_fd (nr_open - arg) s.filp arg in
        if leb nr_open free then done emfile s else install f free s
]

-- The last lines of `sys_close`, for the file `f`.
abbrev pub drop_file : ℕ → Kernel Files ℕ
drop_file f s =
    let count = (file_at s f).f_count in
    if count == 0
    then halted panic s
    else let t = record s { file_table = set_count s f (count - 1) } in
      if count == 1 then done 0 (record t { put = (file_at s f).f_inode ∷ s.put }) else done 0 t

unfoldable pub sys_close : ℕ → Kernel Files ℕ
sys_close fd s =
    if leb nr_open fd
    then done einval s
    else let t = record s { close_on_exec = set s.close_on_exec fd false } in
      elim (fd_at s fd) [
        | none ↦ done einval t
        | some f ↦ drop_file f (record t { filp = set s.filp fd none })
      ]

unfoldable pub sys_dup2 : ℕ → ℕ → Kernel Files ℕ
sys_dup2 oldfd newfd = sys_close newfd >> dupfd oldfd newfd

unfoldable pub sys_dup : ℕ → Kernel Files ℕ
sys_dup fildes = dupfd fildes 0

-- O_APPEND | O_NONBLOCK, two bits side by side
abbrev pub append_nonblock : ℕ → ℕ
append_nonblock x = x / 2 ^ 10 % 4 * 2 ^ 10

-- The commands of `sys_fcntl`: F_DUPFD to F_SETFL; every other one fails.
unfoldable pub sys_fcntl : ℕ → ℕ → ℕ → Kernel Files ℕ
unfolding dupfd
sys_fcntl fd cmd arg s = if leb nr_open fd then done ebadf s else elim (fd_at s fd) [
  | none ↦ done ebadf s
  | some f ↦
      let flags = (file_at s f).f_flags in
      if cmd == 0
      then dupfd fd arg s
      else if cmd == 1
      then done (if get_or s.close_on_exec fd false then 1 else 0) s
      else if cmd == 2
      then done 0 (record s { close_on_exec = set s.close_on_exec fd (arg % 2 == 1) })
      else if cmd == 3
      then done flags s
      else if cmd == 4
      then done 0 (record s {
        file_table = set s.file_table f (record (file_at s f) {
          f_flags = flags - append_nonblock flags + append_nonblock arg;
        });
      })
      else done minus_one s
]
