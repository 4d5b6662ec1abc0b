-- ===== src/Mm/Pages/Free.antt =====
-- What `free_page` gives back, and how many pages are free.
use linux_0_11_read.Prelude.{
  ℕ, zero, suc, ◌-◌, ◌≤◌, ◌<◌, ◌≡◌, ◌≢◌, refl, List, Kernel, return, ◌>>◌, done, halted, panic,
  arith, get_or, set, length, length-set, get_or-set_self, set-set, ◌∙◌, set-get_or,
}
use linux_0_11_read.Mm.Pages.{Mm, paging_pages, used, map_nr, get_free_page, free_page}
use linux_0_11_read.Mm.Pages.Alloc.{IsMm, took, took-Took, get_free_page-inv, page_at}

pub map_nr-page_at : (i : ℕ) → page_at i < 0x1000000 → map_nr (page_at i) ≡ i
map_nr-page_at i h = omega arith

-- A page whose count is above 0 loses one use, and nothing else changes.
pub free_page-eq-done :
    (s : Mm) (i : ℕ)
    → s.high_memory ≤ 0x1000000
    → page_at i < s.high_memory
    → get_or s.mem_map i used ≢ 0
    → free_page (page_at i) s
      ≡ done tt (record s { mem_map = set s.mem_map i (get_or s.mem_map i used - 1) })
unfolding free_page
free_page-eq-done s i v h p = ground (arith, map_nr-page_at i)

set-zero : (m : List ℕ) (i : ℕ) → get_or m i used ≡ 0 → set m i 0 ≡ m
set-zero m i p = rw p at (set-get_or m i used)

pub free_page-eq-panic :
    (s : Mm) (i : ℕ)
    → s.high_memory ≤ 0x1000000
    → page_at i < s.high_memory
    → get_or s.mem_map i used ≡ 0
    → free_page (page_at i) s ≡ halted panic s
unfolding free_page
free_page-eq-panic s i v h p = ground (arith, map_nr-page_at i, p ∙ refl, set-zero s.mem_map i p)

-- A page that get_free_page returned, from a page map with its invariant, can be freed at once,
-- and the page map is then the one before.
pub free_page-get_free_page :
    (s : Mm) {t : Mm} {page : ℕ}
    → IsMm s
    → get_free_page s ≡ done page t
    → page ≢ 0
    → (u : Mm) × (free_page page t ≡ done tt u) × (u.mem_map ≡ s.mem_map)
free_page-get_free_page s {t} {page} v e ne =
    let (i, found, at_i, taken) = get_free_page-inv s e ne in
    let k = took-Took v i found in
    let below : page_at i < s.high_memory = v.free_below i k.in_range k.was_free in
    (
      record (took s i) { mem_map = s.mem_map },
      ground (
        arith,
        at_i,
        taken,
        free_page-eq-done (took s i) i v.high_to below,
        k.in_use,
        set-set s.mem_map i 1 0,
        set-zero s.mem_map i k.was_free,
      ),
      refl,
    )

-- `n` calls in a row.
pub frees : ℕ → ℕ → Kernel Mm (Unit {0})
frees zero addr = return tt
frees (suc n) addr = free_page addr >> frees n addr

-- A page below HIGH_MEMORY, which is 16 megabytes at most, that is in use n times can be freed n
-- times in a row, and the next free_page stops the machine.
pub frees_lem :
    (n : ℕ) (s : Mm) (i : ℕ)
    → length s.mem_map ≡ paging_pages
    → s.high_memory ≤ 0x1000000
    → page_at i < s.high_memory
    → get_or s.mem_map i used ≡ n
    → let t = record s { mem_map = set s.mem_map i 0 } in
      (frees n (page_at i) s ≡ done tt t) × (frees (suc n) (page_at i) s ≡ halted panic t)
unfolding frees
frees_lem zero s i size v h e = ground (arith, free_page-eq-panic s i v h e, set-zero s.mem_map i e)
frees_lem (suc n) s i size v h e = ground (
  arith,
  free_page-eq-done s i v h,
  set-set s.mem_map i n 0,
  frees_lem n (record s { mem_map = set s.mem_map i n }) i,
  length-set s.mem_map i n,
  get_or-set_self s.mem_map i n used,
)
