-- ===== src/Mm/Pages/Init.antt =====
-- What `mem_init` leaves, and how the number of free pages changes.
use linux_0_11_read.Prelude.{
  ℕ, zero, suc, ◌+◌, ◌-◌, ◌/◌, ◌%◌, ◌^◌, ◌≤◌, ◌<◌, ◌≡◌, ◌≢◌, refl, ◌∙◌, List, [], ◌∷◌, ◌&&◌, done,
  arith, ltb, leb, ◌==◌, if◌then◌else◌, get_or, set, length, length-set, length-replicate,
  get_or-set_self, get_or-set_ne, get_or-replicate, ℕ_discrete, Option-cases, ◌⊎◌, inl, inr,
}
use linux_0_11_read.Mm.Pages.{
  Mm, low_mem, paging_pages, used, map_nr, scan, get_free_page, free_page, zero_from, mem_init,
  count_free, all_used,
}
use linux_0_11_read.Mm.Pages.Free.{map_nr-page_at}
use linux_0_11_read.Mm.Pages.Alloc.{IsMm, took-Took, page_at, scan-none}

length-zero_from : (i n : ℕ) (m : List ℕ) → length (zero_from i n m) ≡ length m
unfolding zero_from
length-zero_from i zero m = refl
length-zero_from i (suc n) m = length-zero_from (i + 1) n (set m i 0) ∙ length-set m i 0

get_or-zero_from :
    (i n : ℕ) (m : List ℕ) (j : ℕ)
    → j < length m
    → get_or (zero_from i n m) j used ≡ (if leb i j && ltb j (i + n) then 0 else get_or m j used)
unfolding zero_from
get_or-zero_from i zero m j h = ground arith
get_or-zero_from i (suc n) m j h = elim (ℕ_discrete i j) [
  | yes e ↦ ground (
    arith,
    get_or-zero_from (i + 1) n (set m i 0) j,
    length-set m i 0,
    get_or-set_self m i 0 used,
  )
  | no ne ↦ ground (
    arith,
    get_or-zero_from (i + 1) n (set m i 0) j,
    length-set m i 0,
    get_or-set_ne m i j 0 used ne,
  )
]

length-all_used : (n : ℕ) → length (all_used n) ≡ n
unfolding all_used
length-all_used n = length-replicate n used

get_or-all_used : (n i : ℕ) → i < n → get_or (all_used n) i used ≡ used
unfolding all_used
get_or-all_used n i h = get_or-replicate n used used i h

abbrev pub booted : ℕ → ℕ → Mm → Mm
booted start_mem end_mem s = record s {
  high_memory = end_mem;
  mem_map = zero_from (map_nr start_mem) ((end_mem - start_mem) / 2 ^ 12) (all_used paging_pages);
}

module _ (s : Mm) (start_mem end_mem : ℕ) (low : low_mem ≤ start_mem)
    (aligned : start_mem % 4096 ≡ 0) (le : start_mem ≤ end_mem) (high : end_mem ≤ 0x1000000) where
  size-booted : length (booted start_mem end_mem s).mem_map ≡ paging_pages
  size-booted =
      length-zero_from (map_nr start_mem) ((end_mem - start_mem) / 2 ^ 12) (all_used paging_pages)
      ∙ length-all_used paging_pages

  pub entry-booted :
      (i : ℕ)
      → i < paging_pages
      → get_or (booted start_mem end_mem s).mem_map i used
        ≡ (if leb start_mem (page_at i) && leb (page_at (i + 1)) end_mem then 0 else used)
  entry-booted i h = ground (
    arith,
    get_or-zero_from (map_nr start_mem) ((end_mem - start_mem) / 2 ^ 12) (all_used paging_pages) i,
    length-all_used paging_pages,
    get_or-all_used paging_pages i,
  )

  pub booted-IsMm : IsMm (booted start_mem end_mem s)
  booted-IsMm = record {
    pages = size-booted;
    high_from = omega arith;
    high_to = high;
    free_below = λ i h z. ground (arith, entry-booted i h);
  }

-- mem_init over a range that starts on a page, between the first and the end of the sixteenth
-- megabyte, sets up the invariant of the map, and the free pages are those that lie wholly in the
-- range.
pub mem_init_lem :
    (s : Mm) (start_mem end_mem : ℕ)
    → low_mem ≤ start_mem
    → start_mem % 4096 ≡ 0
    → start_mem ≤ end_mem
    → end_mem ≤ 0x1000000
    → (t : Mm) × (mem_init start_mem end_mem s ≡ done tt t)
      × IsMm t
      × ((i : ℕ)
          → i < paging_pages
          → get_or t.mem_map i used
            ≡ (if leb start_mem (page_at i) && leb (page_at (i + 1)) end_mem then 0 else used))
unfolding mem_init
mem_init_lem s start_mem end_mem low aligned le high = (
  booted start_mem end_mem s,
  ground arith,
  booted-IsMm s start_mem end_mem low aligned le high,
  entry-booted s start_mem end_mem low aligned le high,
)

count_free-set :
    (m : List ℕ) (i v : ℕ)
    → i < length m
    → count_free (set m i v) + (if get_or m i used == 0 then 1 else 0)
      ≡ count_free m + (if v == 0 then 1 else 0)
unfolding count_free
count_free-set [] i v h = elim h [ ]
count_free-set (x ∷ m) zero v h = ground arith
count_free-set (x ∷ m) (suc i) v h = ground (arith, count_free-set m i v)

count_free-pos : (m : List ℕ) (i : ℕ) → i < length m → get_or m i used ≡ 0 → 0 < count_free m
unfolding count_free
count_free-pos [] i h z = elim h [ ]
count_free-pos (x ∷ m) zero h z = ground arith
count_free-pos (x ∷ m) (suc i) h z = ground (arith, count_free-pos m i)

count_free-zero : (m : List ℕ) → ((j : ℕ) → j < length m → get_or m j used ≢ 0) → count_free m ≡ 0
unfolding count_free
count_free-zero [] h = refl
count_free-zero (x ∷ m) h =
    ground (arith, h 0 (omega arith), count_free-zero m (λ j p. h (suc j) (omega arith)))

-- For a page map with its invariant, get_free_page returns 0 with nothing changed when the number
-- of free pages is 0, and otherwise leaves one free page fewer.
pub count_free-get_free_page :
    (s : Mm) {t : Mm} {page : ℕ}
    → IsMm s
    → get_free_page s ≡ done page t
    → ((page ≡ 0) × (count_free s.mem_map ≡ 0) × (t ≡ s))
      ⊎ ((page ≢ 0) × (count_free t.mem_map + 1 ≡ count_free s.mem_map))
unfolding get_free_page
count_free-get_free_page s v e = elim (Option-cases (scan paging_pages s.mem_map)) [
  | inl h ↦
      let none_free = scan-none paging_pages s.mem_map h in
      inl (
        ground arith,
        count_free-zero s.mem_map (λ j p. none_free j (omega (arith, v.pages))),
        ground arith,
      )
  | inr (i, h) ↦
      let k = took-Took v i h in
      inr (
        ground arith,
        ground (arith, count_free-set s.mem_map i 1, k.in_range, k.was_free, v.pages),
      )
]

-- A free_page that returns, on a page below HIGH_MEMORY and a page map with its invariant, adds
-- one free page if it gave up the last use of the page, and else none.
pub count_free-free_page :
    (s : Mm) (i : ℕ) {t : Mm}
    → IsMm s
    → page_at i < s.high_memory
    → free_page (page_at i) s ≡ done tt t
    → count_free t.mem_map ≡ count_free s.mem_map + (if get_or s.mem_map i used == 1 then 1 else 0)
unfolding free_page
count_free-free_page s i v h e =
    ground
      (arith, map_nr-page_at i, v.pages, count_free-set s.mem_map i (get_or s.mem_map i used - 1))
