-- ===== src/Mm/Tables.antt =====
-- mm/memory.c: the two levels of page tables. The page directory lies at physical address 0.
pub mod Walk
pub mod Put
pub mod Protect
pub mod Fork
mod Tests
use linux_0_11_read.Prelude.{
  ℕ, zero, suc, Bool, ◌+◌, ◌-◌, ◌*◌, ◌/◌, ◌%◌, ◌^◌, ◌&&◌, ◌||◌, not, Kernel, Outcome, done, halted,
  panic, stop, return, get, modify, ◌>>=◌, ◌>>◌, ltb, leb, ◌==◌, if◌then◌else◌, get_or, set, add32,
  sub32, clear_low, low_bits, is_neg,
}
use linux_0_11_read.Mm.Pages.{
  Mm, low_mem, used, map_nr, oom, store, copy_page, get_free_page, free_page,
}

-- x & 0xffc, x | 7, x | 2, x & ~2
abbrev pub mask_ffc : ℕ → ℕ
mask_ffc x = clear_low (low_bits x 12) 2

abbrev pub or_7 : ℕ → ℕ
or_7 x = clear_low x 3 + 7

abbrev pub or_2 : ℕ → ℕ
or_2 x = if x / 2 % 2 == 0 then x + 2 else x

abbrev pub and_not_2 : ℕ → ℕ
and_not_2 x = if x / 2 % 2 == 0 then x else x - 2

-- 1 & entry
abbrev pub is_present : ℕ → Bool
is_present e = e % 2 == 1

-- The address of the directory entry of a linear address: `(address>>20) & 0xffc`.
abbrev pub dir_slot : ℕ → ℕ
dir_slot address = mask_ffc (address / 2 ^ 20)

abbrev pub write : ℕ → ℕ → Kernel Mm (Unit {0})
write addr v = modify (λ s. record s { word = store s.word addr v })

abbrev pub set_count : ℕ → ℕ → Kernel Mm (Unit {0})
set_count i n = modify (λ s. record s { mem_map = set s.mem_map i n })

-- `page_table[(address>>12) & 0x3ff] = page | 7`
abbrev pub enter : ℕ → ℕ → ℕ → Kernel Mm ℕ
enter table page address = do
  write (table + 4 * low_bits (address / 2 ^ 12) 10) (or_7 page)
  return page

-- The two warnings that `put_page` prints do not change what it does.
unfoldable pub put_page : ℕ → ℕ → Kernel Mm ℕ
put_page page address = do
  s ← get
  if is_present (s.word (dir_slot address))
      then enter (clear_low (s.word (dir_slot address)) 12) page address
      else do
        tmp ← get_free_page
        if tmp == 0
            then return 0
            else do write (dir_slot address) (or_7 tmp); enter tmp page address

-- `mem_map[MAP_NR(page)]--` on an unsigned byte.
abbrev pub drop_count : ℕ → Kernel Mm (Unit {0})
drop_count page = do
  s ← get
  set_count (map_nr page) ((get_or s.mem_map (map_nr page) used + 255) % 256)

unfoldable pub un_wp_page : ℕ → Kernel Mm (Unit {0})
un_wp_page table_entry = do
  s ← get
  let old_page = clear_low (s.word table_entry) 12
  if leb low_mem old_page && get_or s.mem_map (map_nr old_page) used == 1
      then write table_entry (or_2 (s.word table_entry))
      else do
        new_page ← get_free_page
        if new_page == 0 then oom else return tt
        if leb low_mem old_page then drop_count old_page else return tt
        write table_entry (or_7 new_page)
        modify (λ t. record t { word = copy_page t.word old_page new_page })

unfoldable pub do_wp_page : ℕ → Kernel Mm (Unit {0})
do_wp_page address = do
  s ← get
  un_wp_page (mask_ffc (address / 2 ^ 10) + clear_low (s.word (dir_slot address)) 12)

unfoldable pub write_verify : ℕ → Kernel Mm (Unit {0})
write_verify address = do
  s ← get
  let page = s.word (dir_slot address)
  let entry = clear_low page 12 + mask_ffc (address / 2 ^ 10)
  if not (is_present page)
      then return tt
      else if s.word entry % 4 == 1
      then un_wp_page entry
      else return tt

-- `free_page` of address 0 does nothing.
unfoldable pub get_empty_page : ℕ → Kernel Mm (Unit {0})
get_empty_page address = do
  tmp ← get_free_page
  if tmp == 0
      then free_page tmp >> oom
      else do page ← put_page tmp address; if page == 0 then free_page tmp >> oom else return tt

-- The loop over the `nr` entries left of a page table, in `free_page_tables`.
unfoldable pub free_table : ℕ → ℕ → Kernel Mm (Unit {0})
free_table zero pg_table = return tt
free_table (suc nr) pg_table = do
  s ← get
  if is_present (s.word pg_table) then free_page (clear_low (s.word pg_table) 12) else return tt
  write pg_table 0
  free_table nr (pg_table + 4)

-- The loop over the directory entries, `size` of them left.
unfoldable pub free_dirs : ℕ → ℕ → Kernel Mm (Unit {0})
free_dirs zero dir = return tt
free_dirs (suc size) dir = do
  s ← get
  if not (is_present (s.word dir)) then return tt else do
    free_table 1024 (clear_low (s.word dir) 12)
    t ← get
    free_page (clear_low (t.word dir) 12)
    write dir 0
  free_dirs size (dir + 4)

unfoldable pub free_page_tables : ℕ → ℕ → Kernel Mm ℕ
free_page_tables from size =
    if not (low_bits from 22 == 0)
    then stop panic
    else if from == 0
    then stop panic
    else do free_dirs (add32 size 0x3fffff / 2 ^ 22) (dir_slot from); return 0

-- One entry of `copy_page_tables`: the child gets it without the write bit, and so does the parent
-- for a page above the first megabyte, whose count goes up (an unsigned byte).
unfoldable pub copy_entry : ℕ → ℕ → Kernel Mm (Unit {0})
copy_entry from_page_table to_page_table = do
  s ← get
  let this_page = and_not_2 (s.word from_page_table)
  let nr = sub32 this_page low_mem / 2 ^ 12
  if not (is_present (s.word from_page_table)) then return tt else do
    write to_page_table this_page
    if ltb low_mem this_page
        then write from_page_table this_page >> set_count nr ((get_or s.mem_map nr used + 1) % 256)
        else return tt

unfoldable pub copy_table : ℕ → ℕ → ℕ → Kernel Mm (Unit {0})
copy_table zero from_page_table to_page_table = return tt
copy_table (suc nr) from_page_table to_page_table = do
  copy_entry from_page_table to_page_table
  copy_table nr (from_page_table + 4) (to_page_table + 4)

-- The loop over the directory entries, `size` of them left, with `count` entries to copy from each
-- table. The result is 0, or -1 with no memory.
unfoldable pub copy_dirs : ℕ → ℕ → ℕ → ℕ → Kernel Mm ℕ
copy_dirs count zero from_dir to_dir = return 0
copy_dirs count (suc size) from_dir to_dir = do
  s ← get
  if is_present (s.word to_dir)
      then stop panic
      else if not (is_present (s.word from_dir))
      then copy_dirs count size (from_dir + 4) (to_dir + 4)
      else do
        to_page_table ← get_free_page
        if to_page_table == 0 then return (2 ^ 32 - 1) else do
          write to_dir (or_7 to_page_table)
          copy_table count (clear_low (s.word from_dir) 12) to_page_table
          copy_dirs count size (from_dir + 4) (to_dir + 4)

unfoldable pub copy_page_tables : ℕ → ℕ → ℕ → Kernel Mm ℕ
copy_page_tables from to size =
    if not (low_bits from 22 == 0) || not (low_bits to 22 == 0)
    then stop panic
    else copy_dirs (if from == 0 then 0xa0 else 1024) (add32 size 0x3fffff / 2 ^ 22) (dir_slot from)
        (dir_slot to)
