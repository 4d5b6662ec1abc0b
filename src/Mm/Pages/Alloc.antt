-- ===== src/Mm/Pages/Alloc.antt =====
-- The allocator of physical pages: what `get_free_page`, `free_page` and `mem_init` do to the map.
use linux_0_11_read.Prelude.{
  ℕ, zero, suc, ◌+◌, ◌*◌, ◌^◌, ◌≤◌, ◌<◌, ◌≡◌, ◌≢◌, ◌⊎◌, inl, inr, refl, List, none, some, done,
  arith, ◌==◌, get_or, set, length, clear_low, length-set, get_or-set_self, get_or-set_ne,
  lt_suc-cases, ℕ_discrete, ◌∙◌, sym, Option-cases, Bool-cases,
}
use linux_0_11_read.Mm.Pages.{Mm, low_mem, paging_pages, used, scan, get_free_page, clear_page}

abbrev pub page_at : ℕ → ℕ
page_at i = i * 2 ^ 12 + low_mem

-- What holds of the map between two calls: pages that are free exist.
pub record IsMm (s : Mm) : Type 0 where
  pub pages : length s.mem_map ≡ paging_pages
  pub high_from : low_mem ≤ s.high_memory
  pub high_to : s.high_memory ≤ 0x1000000
  pub free_below :
      (i : ℕ) → i < paging_pages → get_or s.mem_map i used ≡ 0 → page_at i < s.high_memory

pub scan-some :
    (n : ℕ) (m : List ℕ) {k : ℕ}
    → scan n m ≡ some k
    → (k < n) × (get_or m k used ≡ 0) × ((j : ℕ) → k < j → j < n → get_or m j used ≢ 0)
unfolding scan
scan-some zero m e = absurd (ground arith)
scan-some (suc n) m {k} e = elim (Bool-cases (get_or m n used == 0)) [
  | inl h ↦ (ground arith, ground arith, λ j p q. ground arith)
  | inr h ↦
      let rest = scan-some n m (rw (h, scan) at e) in
      (
        omega arith,
        rest.1,
        λ j p q. elim (lt_suc-cases j n q) [
          | inl at_n ↦ ground arith
          | inr below ↦ rest.2 j p below
        ],
      )
]

pub scan-none : (n : ℕ) (m : List ℕ) → scan n m ≡ none → (j : ℕ) → j < n → get_or m j used ≢ 0
unfolding scan
scan-none zero m e j h = elim h [ ]
scan-none (suc n) m e j h = elim (Bool-cases (get_or m n used == 0)) [
  | inl p ↦ ground arith
  | inr p ↦ elim (lt_suc-cases j n h) [
    | inl at_n ↦ ground arith
    | inr below ↦ scan-none n m (rw (p, scan) at e) j below
  ]
]

-- `get_free_page` took page `i`: the last one that was free, now in use once and filled with zeros,
-- with every other page as it was.
pub record Took (s : Mm) (i : ℕ) (t : Mm) : Type 0 where
  pub in_range : i < paging_pages
  pub was_free : get_or s.mem_map i used ≡ 0
  pub is_last : (j : ℕ) → i < j → j < paging_pages → get_or s.mem_map j used ≢ 0
  pub in_use : get_or t.mem_map i used ≡ 1
  pub others : (j : ℕ) → i ≢ j → get_or t.mem_map j used ≡ get_or s.mem_map j used
  pub zeroed : (a : ℕ) → clear_low a 12 ≡ page_at i → t.word a ≡ 0
  pub kept : (a : ℕ) → clear_low a 12 ≢ page_at i → t.word a ≡ s.word a
  pub same_high : t.high_memory ≡ s.high_memory
  pub same_size : length t.mem_map ≡ length s.mem_map

abbrev pub took : Mm → ℕ → Mm
took s i = record s { mem_map = set s.mem_map i 1; word = clear_page s.word (page_at i) }

pub took-Took :
    {s : Mm} → IsMm s → (i : ℕ) → scan paging_pages s.mem_map ≡ some i → Took s i (took s i)
took-Took {s} v i e =
    let found = scan-some paging_pages s.mem_map e in
    record {
      in_range = found.0;
      was_free = found.1;
      is_last = found.2;
      in_use = get_or-set_self s.mem_map i 1 used (omega (arith, v.pages));
      others = λ j ne. get_or-set_ne s.mem_map i j 1 used ne;
      zeroed = λ a h. ground arith;
      kept = λ a h. ground arith;
      same_high = refl;
      same_size = length-set s.mem_map i 1;
    }

-- For a page map with its invariant, get_free_page returns the last free page, filled with zeros
-- and in use once, with every other page and count as it was; or 0 with nothing changed, when no
-- page is free.
pub get_free_page_lem :
    (s : Mm)
    → IsMm s
    → ((i : ℕ) × (t : Mm) × (get_free_page s ≡ done (page_at i) t) × Took s i t)
      ⊎ ((get_free_page s ≡ done 0 s) × ((j : ℕ) → j < paging_pages → get_or s.mem_map j used ≢ 0))
unfolding get_free_page
get_free_page_lem s v = elim (Option-cases (scan paging_pages s.mem_map)) [
  | inl e ↦ inr (ground arith, scan-none paging_pages s.mem_map e)
  | inr (i, e) ↦ inl (i, took s i, rw (e, get_free_page) refl, took-Took v i e)
]

-- A page that is not 0 was found by the scan.
pub get_free_page-inv :
    (s : Mm) {t : Mm} {page : ℕ}
    → get_free_page s ≡ done page t
    → page ≢ 0
    → (i : ℕ) × (scan paging_pages s.mem_map ≡ some i) × (page ≡ page_at i) × (t ≡ took s i)
unfolding get_free_page
get_free_page-inv s e ne = elim (Option-cases (scan paging_pages s.mem_map)) [
  | inl h ↦ absurd (ground arith)
  | inr (i, h) ↦ (i, h, ground arith, ground arith)
]

pub get_free_page-zero :
    (s : Mm) {t : Mm} → get_free_page s ≡ done 0 t → scan paging_pages s.mem_map ≡ none
unfolding get_free_page
get_free_page-zero s e = elim (Option-cases (scan paging_pages s.mem_map)) [
  | inl h ↦ h
  | inr (i, h) ↦ absurd (ground arith)
]

pub took-IsMm : {s : Mm} (i : ℕ) → IsMm s → IsMm (took s i)
took-IsMm {s} i v = record {
  pages = length-set s.mem_map i 1 ∙ v.pages;
  high_from = v.high_from;
  high_to = v.high_to;
  free_below = λ j h z. elim (ℕ_discrete i j) [
    | yes e ↦ absurd (ground (arith, get_or-set_self s.mem_map i 1 used, v.pages))
    | no ne ↦ v.free_below j h (sym (get_or-set_ne s.mem_map i j 1 used ne) ∙ z)
  ];
}

pub get_free_page-some :
    (s : Mm) (i : ℕ)
    → scan paging_pages s.mem_map ≡ some i
    → get_free_page s ≡ done (page_at i) (took s i)
unfolding get_free_page
get_free_page-some s i e = rw (e, get_free_page) refl

pub get_free_page-none : (s : Mm) → scan paging_pages s.mem_map ≡ none → get_free_page s ≡ done 0 s
unfolding get_free_page
get_free_page-none s e = rw (e, get_free_page) refl
