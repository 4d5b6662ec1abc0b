-- ===== src/Mm/Tables/Put.antt =====
-- `put_page` and `get_empty_page`: mapping a page at a linear address.
use linux_0_11_read.Prelude.{
  ℕ, ◌+◌, ◌*◌, ◌/◌, ◌%◌, ◌^◌, ◌<◌, ◌≡◌, ◌≢◌, ◌⊎◌, inl, inr, refl, none, some, true, false, done,
  arith, ◌==◌, if◌then◌else◌, clear_low, low_bits, get_or, ℕ_discrete, Bool-cases, Option-cases,
}
use linux_0_11_read.Mm.Pages.{Mm, paging_pages, used, store, clear_page, scan}
use linux_0_11_read.Mm.Pages.Alloc.{
  IsMm, Took, took, took-Took, page_at, scan-none, get_free_page-some, get_free_page-none,
}
use linux_0_11_read.Mm.Tables.{or_7, is_present, dir_slot, put_page}
use linux_0_11_read.Mm.Tables.Walk.{
  dir_entry, entry_slot, translate, translate-enter, IsApart, dir_slot_lem,
}

-- The tables are apart, and none of them lies in a page that is free.
pub record IsWalk (s : Mm) : Type 0 where
  pub tables : IsApart s.word
  pub not_free :
      (b i : ℕ)
      → b < 2 ^ 32
      → i < paging_pages
      → is_present (dir_entry s.word b) ≡ true
      → clear_low (dir_entry s.word b) 12 ≡ page_at i
      → get_or s.mem_map i used ≢ 0

-- The memory with a new, empty table at the page `i`, for the linear address `a`.
abbrev pub with_table : Mm → ℕ → ℕ → ℕ → ℕ
with_table s i a = store (clear_page s.word (page_at i)) (dir_slot a) (or_7 (page_at i))

module _ (s : Mm) (v : IsMm s) (w : IsWalk s) (i a : ℕ) (ha : a < 2 ^ 32)
    (free : get_or s.mem_map i used ≡ 0) (range : i < paging_pages) where
  pub dir_entry-with_table :
      (b : ℕ)
      → b < 2 ^ 32
      → dir_entry (with_table s i a) b
        ≡ (if b / 2 ^ 22 == a / 2 ^ 22 then or_7 (page_at i) else dir_entry s.word b)
  unfolding dir_entry
  dir_entry-with_table b hb = ground arith

  pub with_table_present : is_present (dir_entry (with_table s i a) a) ≡ true
  with_table_present = ground (arith, dir_entry-with_table a ha)

  pub with_table-IsApart : IsApart (with_table s i a)
  with_table-IsApart = record {
    above = λ b hb p. ground (arith, dir_entry-with_table b hb, w.tables.above b hb);
    apart = λ b c hb hc p q e. ground (
      arith,
      dir_entry-with_table b hb,
      dir_entry-with_table c hc,
      w.tables.apart b c hb hc,
      w.not_free b i hb range,
      w.not_free c i hc range,
    );
  }

  pub translate-with_table :
      (b : ℕ)
      → b < 2 ^ 32
      → is_present (dir_entry s.word a) ≡ false
      → translate (with_table s i a) b ≡ translate s.word b
  unfolding translate
  translate-with_table b hb p = elim (ℕ_discrete (b / 2 ^ 22) (a / 2 ^ 22)) [
    | yes e ↦ ground (arith, dir_entry-with_table b hb)
    | no ne ↦
        ground (arith, dir_entry-with_table b hb, w.tables.above b hb, w.not_free b i hb range)
  ]

-- The memory after `put_page`: the entry is in the table that is there, or in a new one.
abbrev put_there : Mm → ℕ → ℕ → Mm
put_there s page a = record s { word = store s.word (entry_slot s.word a) (or_7 page) }

abbrev put_new : Mm → ℕ → ℕ → ℕ → Mm
put_new s i page a = record (took s i) {
  word = store (with_table s i a) (entry_slot (with_table s i a) a) (or_7 page);
}

put_page-there :
    (s : Mm) (page a : ℕ)
    → a < 2 ^ 32
    → is_present (dir_entry s.word a) ≡ true
    → put_page page a s ≡ done page (put_there s page a)
unfolding put_page dir_entry entry_slot
put_page-there s page a ha p = rw (dir_slot_lem a ha, p) refl

slot_in_new :
    (s : Mm) (i a : ℕ)
    → a < 2 ^ 32
    → entry_slot (with_table s i a) a ≡ page_at i + 4 * low_bits (a / 2 ^ 12) 10
unfolding entry_slot
slot_in_new s i a ha = ground (arith, dir_slot_lem a ha)

entry :
    (s : Mm) (a : ℕ)
    → a < 2 ^ 32
    → is_present (dir_entry s.word a) ≡ false
    → is_present (s.word (dir_slot a)) ≡ false
unfolding dir_entry
entry s a ha p = rw (dir_slot_lem a ha) p

put_page-new :
    (s : Mm) (i page a : ℕ)
    → a < 2 ^ 32
    → is_present (dir_entry s.word a) ≡ false
    → scan paging_pages s.mem_map ≡ some i
    → put_page page a s ≡ done page (put_new s i page a)
unfolding put_page
put_page-new s i page a ha p found =
    ground (arith, get_free_page-some s i found, entry s a ha p, slot)
  where
    slot : entry_slot (with_table s i a) a ≡ page_at i + 4 * low_bits (a / 2 ^ 12) 10
    slot = slot_in_new s i a ha

put_page-full :
    (s : Mm) (page a : ℕ)
    → a < 2 ^ 32
    → is_present (dir_entry s.word a) ≡ false
    → scan paging_pages s.mem_map ≡ none
    → put_page page a s ≡ done 0 s
unfolding put_page
put_page-full s page a ha p full = ground (arith, get_free_page-none s full, entry s a ha p)

-- put_page maps an aligned page at a linear address, and changes the translation of no address
-- outside that page, or it returns 0 with nothing changed, when a page table is missing and no
-- page is free. It holds for a page map with its invariant, an address below 2^32, and tables that
-- are apart from each other and from the directory, and in use.
pub put_page_lem :
    (s : Mm) (page a : ℕ)
    → IsMm s
    → IsWalk s
    → page % 4096 ≡ 0
    → a < 2 ^ 32
    → ((t : Mm) × (put_page page a s ≡ done page t)
        × ((b : ℕ)
            → b < 2 ^ 32
            → translate t.word b
              ≡ (if b / 2 ^ 12 == a / 2 ^ 12 then some (page + b % 4096) else translate s.word b)))
      ⊎ ((put_page page a s ≡ done 0 s)
          × (is_present (dir_entry s.word a) ≡ false)
          × ((j : ℕ) → j < paging_pages → get_or s.mem_map j used ≢ 0))
put_page_lem s page a v w aligned ha = elim (Bool-cases (is_present (dir_entry s.word a))) [
  | inl p ↦ inl (
    put_there s page a,
    put_page-there s page a ha p,
    λ b hb. translate-enter s.word page a b w.tables ha hb aligned p,
  )
  | inr p ↦ elim (Option-cases (scan paging_pages s.mem_map)) [
    | inl full ↦ inr (put_page-full s page a ha p full, p, scan-none paging_pages s.mem_map full)
    | inr (i, found) ↦
        let k = took-Took v i found in
        inl (put_new s i page a, put_page-new s i page a ha p found, λ b hb. new i found k b hb p)
  ]
]
  where
    new :
        (i : ℕ)
        → scan paging_pages s.mem_map ≡ some i
        → Took s i (took s i)
        → (b : ℕ) → b < 2 ^ 32
        → is_present (dir_entry s.word a) ≡ false
        → translate (put_new s i page a).word b
          ≡ (if b / 2 ^ 12 == a / 2 ^ 12 then some (page + b % 4096) else translate s.word b)
    new i found k b hb p =
        rw
          (
            translate-enter (with_table s i a) page a b
                (with_table-IsApart s v w i a ha k.was_free k.in_range) ha hb aligned
                (with_table_present s v w i a ha k.was_free k.in_range),
            translate-with_table s v w i a ha k.was_free k.in_range b hb p,
          )
          refl
