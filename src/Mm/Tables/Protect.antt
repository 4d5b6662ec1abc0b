-- ===== src/Mm/Tables/Protect.antt =====
-- `un_wp_page`: a write to a shared page gets a copy of its own.
use linux_0_11_read.Prelude.{
  ℕ, ◌+◌, ◌%◌, ◌≤◌, ◌<◌, ◌≡◌, ◌≢◌, ◌⊎◌, ◌&&◌, inl, inr, none, some, Bool, true, false, done, halted,
  exited, arith, ◌==◌, leb, if◌then◌else◌, clear_low, get_or, set, Bool-cases, Option-cases,
  get_or-set_self, get_or-set_ne,
}
use linux_0_11_read.Mm.Pages.{Mm, low_mem, map_nr, paging_pages, used, store, copy_page, scan}
use linux_0_11_read.Mm.Pages.Alloc.{
  IsMm, Took, took, took-Took, page_at, scan-none, get_free_page-some, get_free_page-none,
}
use linux_0_11_read.Mm.Tables.{or_2, or_7, un_wp_page}

abbrev pub page_of : ℕ → ℕ
page_of e = clear_low e 12

-- What `un_wp_page` relies on: the entry maps a page below 16 megabytes, which is in use if it is
-- above the first megabyte, and the entry lies neither in that page nor in a free one.
pub record IsMapped (s : Mm) (slot : ℕ) : Type 0 where
  pub present : s.word slot % 2 ≡ 1
  pub below : page_of (s.word slot) < 0x1000000
  pub counted :
      (i : ℕ) → i < paging_pages → page_of (s.word slot) ≡ page_at i → get_or s.mem_map i used ≢ 0
  pub byte : (i : ℕ) → i < paging_pages → get_or s.mem_map i used < 256
  pub elsewhere : page_of slot ≢ page_of (s.word slot)
  pub table : (i : ℕ) → i < paging_pages → page_of slot ≡ page_at i → get_or s.mem_map i used ≢ 0

-- The entry maps a page with the contents of the old one, for reading and writing; above the first
-- megabyte it is the page's one use, and a page left behind has one use fewer. No other word has changed, but for those of the new page.
pub record IsPrivate (s : Mm) (slot : ℕ) (t : Mm) : Type 0 where
  pub writable : t.word slot % 4 ≡ 3
  pub same :
      (off : ℕ)
      → off < 4096
      → t.word (page_of (t.word slot) + off) ≡ s.word (page_of (s.word slot) + off)
  pub sole :
      low_mem ≤ page_of (t.word slot) → get_or t.mem_map (map_nr (page_of (t.word slot))) used ≡ 1
  pub dropped :
      page_of (t.word slot) ≢ page_of (s.word slot)
      → low_mem ≤ page_of (s.word slot)
      → get_or t.mem_map (map_nr (page_of (s.word slot))) used + 1
        ≡ get_or s.mem_map (map_nr (page_of (s.word slot))) used
  pub kept : (a : ℕ) → a ≢ slot → page_of a ≢ page_of (t.word slot) → t.word a ≡ s.word a

-- The old page is the entry's alone.
abbrev pub is_sole : Mm → ℕ → Bool
is_sole s slot =
    leb low_mem (page_of (s.word slot))
    && get_or s.mem_map (map_nr (page_of (s.word slot))) used == 1

abbrev unprotected : Mm → ℕ → Mm
unprotected s slot = record s { word = store s.word slot (or_2 (s.word slot)) }

abbrev copied_map : Mm → ℕ → ℕ → Mm
copied_map s slot i =
    if leb low_mem (page_of (s.word slot))
    then record (took s i) {
      mem_map =
          set (took s i).mem_map (map_nr (page_of (s.word slot)))
            ((get_or (took s i).mem_map (map_nr (page_of (s.word slot))) used + 255) % 256);
    }
    else took s i

abbrev copied : Mm → ℕ → ℕ → Mm
copied s slot i = record (copied_map s slot i) {
  word =
      copy_page (store (took s i).word slot (or_7 (page_at i))) (page_of (s.word slot)) (page_at i);
}

un_wp_page-sole :
    (s : Mm) (slot : ℕ) → is_sole s slot ≡ true → un_wp_page slot s ≡ done tt (unprotected s slot)
unfolding un_wp_page
un_wp_page-sole s slot h = ground arith

un_wp_page-copied :
    (s : Mm) (slot i : ℕ)
    → is_sole s slot ≡ false
    → scan paging_pages s.mem_map ≡ some i
    → un_wp_page slot s ≡ done tt (copied s slot i)
unfolding un_wp_page
un_wp_page-copied s slot i h found = ground (arith, get_free_page-some s i found)

un_wp_page-oom :
    (s : Mm) (slot : ℕ)
    → is_sole s slot ≡ false
    → scan paging_pages s.mem_map ≡ none
    → un_wp_page slot s ≡ halted exited s
unfolding un_wp_page
un_wp_page-oom s slot h full = ground (arith, get_free_page-none s full)

unprotected-IsPrivate :
    (s : Mm) (slot : ℕ)
    → IsMapped s slot
    → is_sole s slot ≡ true
    → IsPrivate s slot (unprotected s slot)
unprotected-IsPrivate s slot m h = record {
  writable = ground arith;
  same = λ off lt. ground (arith, m.elsewhere, m.present);
  sole = λ le. ground arith;
  dropped = λ ne le. ground arith;
  kept = λ a ne p. ground arith;
}

module _ (s : Mm) (slot i : ℕ) (v : IsMm s) (m : IsMapped s slot) (shared : is_sole s slot ≡ false)
    (k : Took s i (took s i)) where
  -- The old page is neither the new one nor at its place in the map.
  old_ne_new : page_of (s.word slot) ≢ page_at i
  old_ne_new e = m.counted i k.in_range e k.was_free

  slot_not_new : page_of slot ≢ page_at i
  slot_not_new e = m.table i k.in_range e k.was_free

  word_of_slot : (copied s slot i).word slot ≡ or_7 (page_at i)
  word_of_slot = ground (arith, slot_not_new)

  copied-same :
      (off : ℕ)
      → off < 4096
      → (copied s slot i).word (page_at i + off) ≡ s.word (page_of (s.word slot) + off)
  copied-same off lt = ground (arith, old_ne_new, m.elsewhere)

  old_index : ℕ
  old_index = map_nr (page_of (s.word slot))

  index_ne : low_mem ≤ page_of (s.word slot) → old_index ≢ i
  unfolding old_index
  index_ne le e = old_ne_new (omega (arith, m.below, k.in_range))

  count_of_new : get_or (copied_map s slot i).mem_map i used ≡ 1
  unfolding old_index
  count_of_new = ground (
    arith,
    k.in_use,
    index_ne,
    get_or-set_ne (took s i).mem_map old_index i
        ((get_or (took s i).mem_map old_index used + 255) % 256) used,
  )

  count_of_old :
      low_mem ≤ page_of (s.word slot)
      → get_or (copied_map s slot i).mem_map old_index used + 1 ≡ get_or s.mem_map old_index used
  unfolding old_index
  count_of_old le = ground (
    arith,
    index_ne,
    k.others old_index,
    k.same_size,
    v.pages,
    m.below,
    m.byte old_index,
    m.counted old_index,
    get_or-set_self (took s i).mem_map old_index
        ((get_or (took s i).mem_map old_index used + 255) % 256) used,
  )

  copied-IsPrivate : IsPrivate s slot (copied s slot i)
  unfolding old_index
  copied-IsPrivate = record {
    writable = ground (arith, word_of_slot);
    same = λ off lt. ground (arith, word_of_slot, copied-same off lt);
    sole = λ le. ground (arith, word_of_slot, count_of_new, k.in_range);
    dropped = λ ne le. count_of_old le;
    kept = λ a ne p. ground (arith, word_of_slot);
  }

-- un_wp_page makes the entry writable with the same contents, sole use of its page and one use
-- fewer of a page left behind, and changes no word outside the entry and the new page; if it needs
-- a page and none is free the process exits with nothing changed. It holds for a page map with its
-- invariant and counts below 256, and a present entry of a page below 16 megabytes, where that
-- page and the one of the entry itself differ and are not free.
pub un_wp_page_lem :
    (s : Mm) (slot : ℕ)
    → IsMm s
    → IsMapped s slot
    → ((t : Mm) × (un_wp_page slot s ≡ done tt t) × IsPrivate s slot t)
      ⊎ ((un_wp_page slot s ≡ halted exited s)
          × (is_sole s slot ≡ false)
          × ((j : ℕ) → j < paging_pages → get_or s.mem_map j used ≢ 0))
un_wp_page_lem s slot v m = elim (Bool-cases (is_sole s slot)) [
  | inl h ↦ inl (unprotected s slot, un_wp_page-sole s slot h, unprotected-IsPrivate s slot m h)
  | inr h ↦ elim (Option-cases (scan paging_pages s.mem_map)) [
    | inl full ↦ inr (un_wp_page-oom s slot h full, h, scan-none paging_pages s.mem_map full)
    | inr (i, found) ↦ inl (
      copied s slot i,
      un_wp_page-copied s slot i h found,
      copied-IsPrivate s slot i v m h (took-Took v i found),
    )
  ]
]
