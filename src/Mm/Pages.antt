-- ===== src/Mm/Pages.antt =====
-- mm/memory.c: the map of physical pages. `word` is physical memory, a 32-bit word at each address
-- that is a multiple of 4; the kernel maps it at the same linear addresses.
pub mod Alloc
pub mod Free
pub mod Init
pub mod Machine
mod Tests
use linux_0_11_read.Prelude.{
  ℕ, zero, suc, ◌+◌, ◌-◌, ◌*◌, ◌/◌, ◌^◌, ◌≡◌, List, Option, none, some, Kernel, Outcome, done,
  halted, Halt, panic, exited, stop, ltb, leb, ◌==◌, if◌then◌else◌, get_or, set, replicate, sub32,
  is_neg, clear_low, low_bits, Bool, true, false,
}

pub record Mm : Type 0 where
  pub mem_map : List ℕ
  pub high_memory : ℕ
  pub word : ℕ → ℕ

abbrev pub page_size : ℕ
page_size = 4096

abbrev pub low_mem : ℕ
low_mem = 0x100000

abbrev pub paging_memory : ℕ
paging_memory = 15 * 1024 * 1024

abbrev pub paging_pages : ℕ
paging_pages = paging_memory / 2 ^ 12

abbrev pub used : ℕ
used = 100

-- `MAP_NR`
abbrev pub map_nr : ℕ → ℕ
map_nr addr = sub32 addr low_mem / 2 ^ 12

-- `oom`: the current process exits with SIGSEGV, and the call does not return.
abbrev pub oom : {A : Type 0} → Kernel Mm A
oom = stop exited

abbrev pub store : (ℕ → ℕ) → ℕ → ℕ → ℕ → ℕ
store w addr v a = if a == addr then v else w a

-- The `rep ; stosl` of `get_free_page`.
abbrev pub clear_page : (ℕ → ℕ) → ℕ → ℕ → ℕ
clear_page w page a = if clear_low a 12 == page then 0 else w a

-- The macro `copy_page`, between two page addresses.
abbrev pub copy_page : (ℕ → ℕ) → ℕ → ℕ → ℕ → ℕ
copy_page w from to a = if clear_low a 12 == to then w (from + low_bits a 12) else w a

-- `std ; repne ; scasb`: from the last byte of the map down to the first one that is 0.
unfoldable pub scan : ℕ → List ℕ → Option ℕ
scan zero m = none
scan (suc k) m = elim (get_or m k used == 0) [ true ↦ some k | false ↦ scan k m ]

unfoldable pub get_free_page : Kernel Mm ℕ
get_free_page s = elim (scan paging_pages s.mem_map) [
  | none ↦ done 0 s
  | some k ↦
      let page = k * 2 ^ 12 + low_mem in
      done page (record s { mem_map = set s.mem_map k 1; word = clear_page s.word page })
]

-- A byte that is 0 wraps at its decrement and is set to 0 again.
unfoldable pub free_page : ℕ → Kernel Mm (Unit {0})
free_page addr s =
    if ltb addr low_mem
    then done tt s
    else if leb s.high_memory addr
    then halted panic s
    else let i = map_nr addr in
      let count = get_or s.mem_map i used in
      if count == 0
      then halted panic (record s { mem_map = set s.mem_map i 0 })
      else done tt (record s { mem_map = set s.mem_map i (count - 1) })

-- `while (end_mem-- > 0) mem_map[i++] = 0`
unfoldable pub zero_from : ℕ → ℕ → List ℕ → List ℕ
zero_from i zero m = m
zero_from i (suc n) m = zero_from (i + 1) n (set m i 0)

-- The first loop of `mem_init`, over `n` entries.
pub all_used : ℕ → List ℕ
all_used n = replicate n used

unfoldable pub mem_init : ℕ → ℕ → Kernel Mm (Unit {0})
mem_init start_mem end_mem s =
    let size = sub32 end_mem start_mem in
    let pages = if is_neg size then 0 else size / 2 ^ 12 in
    done tt (record s {
      high_memory = end_mem;
      mem_map = zero_from (map_nr start_mem) pages (all_used paging_pages);
    })

-- The count that `calc_mem` prints as "pages free".
unfoldable pub count_free : List ℕ → ℕ
count_free List.[] = 0
count_free (List.◌∷◌ x m) = let rest = count_free m in if x == 0 then rest + 1 else rest
