-- ===== src/Mm/Faults.antt =====
-- mm/memory.c: a page that is not there, which `share_page` takes from another task with the same
-- program, and `do_no_page` else reads from the disk. The file system's `bmap` and `bread_page` are
-- parameters, and a `struct m_inode *` is a number, 0 for NULL.
pub mod Entries
pub mod Guards
pub mod Table
pub mod Share
mod Tests
use linux_0_11_read.Prelude.{
  ℕ, zero, suc, Bool, List, [], ◌∷◌, Option, none, some, ◌+◌, ◌-◌, ◌*◌, ◌/◌, ◌%◌, ◌^◌, ◌&&◌, ◌||◌,
  not, Kernel, Outcome, done, halted, panic, stop, return, get, modify, ◌>>=◌, ◌>>◌, ltb, leb, slt,
  ◌==◌, if◌then◌else◌, get_or, add32, sub32, clear_low, low_bits,
}
use linux_0_11_read.Mm.Pages.{Mm, low_mem, used, map_nr, oom, store, get_free_page, free_page}
use linux_0_11_read.Mm.Tables.{
  mask_ffc, or_7, and_not_2, is_present, write, set_count, put_page, get_empty_page,
}

-- `(entry & 0x41) == 0x01`: present and not written to.
abbrev pub is_clean : ℕ → Bool
is_clean entry = is_present entry && entry / 2 ^ 6 % 2 == 0

-- `((address>>20) & 0xffc) + ((start_code>>20) & 0xffc)`
abbrev pub shared_dir : ℕ → ℕ → ℕ
shared_dir address start_code = mask_ffc (address / 2 ^ 20) + mask_ffc (start_code / 2 ^ 20)

-- The page table at a directory entry, or a new one.
unfoldable pub table_at : ℕ → Kernel Mm ℕ
table_at to_dir = do
  s ← get
  if is_present (s.word to_dir)
      then return (s.word to_dir)
      else do tmp ← get_free_page; if tmp == 0 then oom else do write to_dir (or_7 tmp); return tmp

-- The tail of `try_to_share`, for the two page table entries, and the page that is shared.
abbrev pub share_entry : ℕ → ℕ → ℕ → Kernel Mm ℕ
share_entry from_page to_page phys_addr = do
  s ← get
  if is_present (s.word to_page) then stop panic else do
    write from_page (and_not_2 (s.word from_page))
    t ← get
    write to_page (t.word from_page)
    set_count (map_nr phys_addr) ((get_or s.mem_map (map_nr phys_addr) used + 1) % 256)
    return 1

-- `to_code` and `from_code` are the start_code of the current task and of `p`.
unfoldable pub try_to_share : (address to_code from_code : ℕ) → Kernel Mm ℕ
try_to_share address to_code from_code = do
  s ← get
  let from = s.word (shared_dir address from_code)
  let from_page = clear_low from 12 + mask_ffc (address / 2 ^ 10)
  let phys_addr = clear_low (s.word from_page) 12
  if not (is_present from)
      then return 0
      else if not (is_clean (s.word from_page))
      then return 0
      else if leb s.high_memory phys_addr || ltb phys_addr low_mem
      then return 0
      else do
        to ← table_at (shared_dir address to_code)
        share_entry from_page (clear_low to 12 + mask_ffc (address / 2 ^ 10)) phys_addr

-- The fields of a task that a fault reads.
pub record Program : Type 0 where
  pub start_code : ℕ
  pub end_data : ℕ
  pub executable : ℕ

-- The loop over the tasks `n` to 1; `me` is the current one, at the index `current`.
unfoldable pub share_loop : (ℕ → Option Program) → ℕ → Program → ℕ → ℕ → Kernel Mm ℕ
share_loop task current me address zero = return 0
share_loop task current me address (suc n) =
    let rest = share_loop task current me address n in
    elim (task (suc n)) [
      | none ↦ rest
      | some p ↦ if (current == suc n) || not (p.executable == me.executable) then rest else do
        shared ← try_to_share address me.start_code p.start_code
        if not (shared == 0) then return 1 else rest
    ]

-- `i_count` is the use count of each inode.
unfoldable pub share_page : (ℕ → ℕ) → (ℕ → Option Program) → ℕ → Program → ℕ → Kernel Mm ℕ
share_page i_count task current me address =
    if me.executable == 0
    then return 0
    else if ltb (i_count me.executable) 2
    then return 0
    else share_loop task current me address 63

-- `*(char *) tmp = 0` in the words of the memory.
abbrev pub clear_byte : (ℕ → ℕ) → ℕ → ℕ → ℕ
clear_byte w tmp =
    let old = w (clear_low tmp 2) in
    let unit = 2 ^ (8 * low_bits tmp 2) in store w (clear_low tmp 2) (old - old / unit % 256 * unit)

-- The loop `while (i-- > 0)`.
unfoldable pub clear_bytes : ℕ → ℕ → (ℕ → ℕ) → ℕ → ℕ
clear_bytes zero tmp w = w
clear_bytes (suc i) tmp w = clear_bytes i (tmp - 1) (clear_byte w (tmp - 1))

-- What fs/inode.c and fs/buffer.c give: the block of a file, and `bread_page` of four blocks of the
-- device of an inode to a page.
pub record Reader : Type 0 where
  pub bmap : ℕ → ℕ → ℕ
  pub bread_page : ℕ → ℕ → List ℕ → (ℕ → ℕ) → ℕ → ℕ

-- The loop that fills `nr`.
abbrev pub blocks : Reader → ℕ → ℕ → List ℕ
blocks disk inode block =
    disk.bmap inode block
    ∷ disk.bmap inode (block + 1)
    ∷ disk.bmap inode (block + 2)
    ∷ disk.bmap inode (block + 3)
    ∷ []

unfoldable pub do_no_page :
    Reader → (ℕ → ℕ) → (ℕ → Option Program) → ℕ → Program → ℕ → Kernel Mm (Unit {0})
do_no_page disk i_count task current me fault =
    let address = clear_low fault 12 in
    let tmp = sub32 address me.start_code in
    if (me.executable == 0) || leb me.end_data tmp then get_empty_page address else do
      shared ← share_page i_count task current me tmp
      if not (shared == 0) then return tt else do
        page ← get_free_page
        if page == 0 then oom else return tt
        let block = 1 + tmp / 1024
        let i = sub32 (add32 tmp 4096) me.end_data
        modify (λ s. record s {
          word =
              clear_bytes (if slt 0 i then i else 0) (page + 4096)
                (disk.bread_page page me.executable (blocks disk me.executable block) s.word);
        })
        put ← put_page page address
        if not (put == 0) then return tt else free_page page >> oom
