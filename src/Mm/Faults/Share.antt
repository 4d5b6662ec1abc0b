-- ===== src/Mm/Faults/Share.antt =====
-- `try_to_share`: what it makes of the pages of the two tasks.
use linux_0_11_read.Prelude.{
  ℕ, ◌+◌, ◌*◌, ◌/◌, ◌%◌, ◌^◌, ◌<◌, ◌≡◌, ◌≢◌, ◌⊎◌, inl, inr, refl, ◌∙◌, sym, ap, Option-cases, none,
  some, true, false, Kernel, Halt, Outcome, return, ◌>>=◌, done, halted, exited, panic, arith, ◌==◌,
  if◌then◌else◌, get_or, set, Bool-cases, get_or-set_self,
}
use linux_0_11_read.Mm.Pages.{Mm, paging_pages, used, map_nr, scan}
use linux_0_11_read.Mm.Pages.Alloc.{IsMm, Took, took, took-Took, page_at, scan-none}
use linux_0_11_read.Mm.Tables.{is_present}
use linux_0_11_read.Mm.Tables.Walk.{dir_entry, entry_slot, table_entry, translate}
use linux_0_11_read.Mm.Tables.Protect.{page_of}
use linux_0_11_read.Mm.Tables.Put.{IsWalk, with_table, dir_entry-with_table}
use linux_0_11_read.Mm.Faults.{table_at, share_entry, try_to_share}
use linux_0_11_read.Mm.Faults.Table.{
  HasTable, with_new, table_at-there, table_at-new, table_at-full, there-HasTable, new-HasTable,
}
use linux_0_11_read.Mm.Faults.Guards.{can_share, share_in, tail, try_to_share-open}
use linux_0_11_read.Mm.Faults.Entries.{shared, translate-shared, shared-read_only}

abbrev pub uses : Mm → ℕ → ℕ
uses s page = get_or s.mem_map (map_nr page) used

-- The page at `b` is at `a` too, for reading only, and has one use more; all else is as it was.
pub record IsShared (s : Mm) (a b : ℕ) (t : Mm) : Type 0 where
  pub mapped :
      (c : ℕ)
      → c < 2 ^ 32
      → translate t.word c ≡ (
          if c / 2 ^ 12 == a / 2 ^ 12
          then some (page_of (table_entry s.word b) + c % 4096)
          else translate s.word c)
  pub protected_a : table_entry t.word a / 2 % 2 ≡ 0
  pub protected_b : table_entry t.word b / 2 % 2 ≡ 0
  pub counted :
      uses t (page_of (table_entry s.word b)) ≡ uses s (page_of (table_entry s.word b)) + 1

-- Once there is a table for `a`.
share_entry-free :
    (t : Mm) (a b page : ℕ)
    → is_present (t.word (entry_slot t.word a)) ≡ false
    → share_entry (entry_slot t.word b) (entry_slot t.word a) page t
      ≡ done 1 (record t {
        mem_map = set t.mem_map (map_nr page) ((uses t page + 1) % 256);
        word = shared t.word a b;
      })
unfolding table_entry
share_entry-free t a b page p = ground (arith, p)

share_entry-there :
    (t : Mm) (from_page to_page page : ℕ)
    → is_present (t.word to_page) ≡ true
    → share_entry from_page to_page page t ≡ halted panic t
share_entry-there t from_page to_page page p = rw p refl

bind-done :
    {A B : Type 0} (m : Kernel Mm A) (f : A → Kernel Mm B) {s t : Mm} {a : A}
    → m s ≡ done a t
    → (m >>= f) s ≡ f a t
bind-done {B} m f e =
    ap (λ o. elim o as (λ x. Outcome Mm B) [ done a s' ↦ f a s' | halted h s' ↦ halted h s' ]) e

bind-halted :
    {A B : Type 0} (m : Kernel Mm A) (f : A → Kernel Mm B) {s t : Mm} {h : Halt}
    → m s ≡ halted h t
    → (m >>= f) s ≡ halted h t
bind-halted {B} m f e =
    ap (λ o. elim o as (λ x. Outcome Mm B) [ done a s' ↦ f a s' | halted h s' ↦ halted h s' ]) e

translate-present :
    (w : ℕ → ℕ) (a : ℕ)
    → is_present (dir_entry w a) ≡ true
    → is_present (w (entry_slot w a)) ≡ true
    → translate w a ≢ none
unfolding translate
translate-present w a p q e = absurd (ground (arith, p, q, e))

module _ (s t : Mm) (a b : ℕ) (v : IsMm s) (ha : a < 2 ^ 32) (hb : b < 2 ^ 32)
    (can : can_share s b ≡ true) (table : HasTable s a t)
    (few : 0 < uses s (page_of (table_entry s.word b)))
    (fit : uses s (page_of (table_entry s.word b)) < 255) where
  page : ℕ
  page = page_of (table_entry s.word b)

  dir_b : is_present (dir_entry s.word b) ≡ true
  dir_b = ground (arith, can)

  t_dir_b : is_present (dir_entry t.word b) ≡ true
  t_dir_b = rw (table.same_dir b hb dir_b) dir_b

  t_entry : table_entry t.word b ≡ table_entry s.word b
  t_entry = table.same_entry b hb dir_b

  t_entry_present : is_present (table_entry t.word b) ≡ true
  t_entry_present = rw t_entry (ground (arith, can))

  same_slot : entry_slot t.word b ≡ entry_slot s.word b
  unfolding entry_slot
  same_slot = rw (table.same_dir b hb dir_b) refl

  abbrev after : Mm
  after = record t {
    mem_map = set t.mem_map (map_nr page) ((uses t page + 1) % 256);
    word = shared t.word a b;
  }

  after-IsShared : IsShared s a b after
  unfolding page
  after-IsShared =
      let locked =
        shared-read_only t.word a b table.apart ha hb table.present t_dir_b t_entry_present in
      record {
        mapped = λ c hc.
            rw
              (
                translate-shared t.word a b table.apart ha hb table.present t_dir_b t_entry_present
                    c hc,
                t_entry,
                table.same c hc,
              )
              refl;
        protected_a = locked.0;
        protected_b = locked.1;
        counted = ground (
          arith,
          get_or-set_self t.mem_map (map_nr page) ((uses t page + 1) % 256) used,
          table.counts (map_nr page),
          table.size,
          v.pages,
          v.high_to,
          can,
        );
      }

  share_in-entry :
      (to : ℕ)
      → page_of to ≡ page_of (dir_entry t.word a)
      → share_in s a b to t ≡ share_entry (entry_slot t.word b) (entry_slot t.word a) page t
  unfolding entry_slot page
  share_in-entry to same =
      ap (λ x. share_entry x (page_of to + 4 * (a / 2 ^ 12 % 1024)) page t) (sym same_slot)
      ∙ ap (λ x. share_entry (entry_slot t.word b) (x + 4 * (a / 2 ^ 12 % 1024)) page t) same

  -- The end of the call, if the table is there.
  tail-IsShared :
      (to : ℕ)
      → table_at (a / 2 ^ 22 * 4) s ≡ done to t
      → page_of to ≡ page_of (dir_entry t.word a)
      → ((u : Mm) × (tail s a b s ≡ done 1 u) × IsShared s a b u)
        ⊎ ((u : Mm) × (tail s a b s ≡ halted panic u) × (translate s.word a ≢ none))
  tail-IsShared to found same = elim (Bool-cases (is_present (t.word (entry_slot t.word a)))) [
    | inl p ↦ inr (
      t,
      end ∙ share_entry-there t (entry_slot t.word b) (entry_slot t.word a) page p,
      λ e. translate-present t.word a table.present p (table.same a ha ∙ e),
    )
    | inr p ↦ inl (after, end ∙ share_entry-free t a b page p, after-IsShared)
  ]
    where
      end : tail s a b s ≡ share_entry (entry_slot t.word b) (entry_slot t.word a) page t
      end = bind-done (table_at (a / 2 ^ 22 * 4)) (share_in s a b) found ∙ share_in-entry to same

module _ (s : Mm) (a b : ℕ) (v : IsMm s) (w : IsWalk s) (ha : a < 2 ^ 32) (hb : b < 2 ^ 32)
    (can : can_share s b ≡ true) (few : 0 < uses s (page_of (table_entry s.word b)))
    (fit : uses s (page_of (table_entry s.word b)) < 255) where
  new_table :
      (i : ℕ)
      → is_present (dir_entry s.word a) ≡ false
      → Took s i (took s i)
      → page_of (page_at i) ≡ page_of (dir_entry (with_table s i a) a)
  new_table i p k = rw (dir_entry-with_table s v w i a ha k.was_free k.in_range a ha) (ground arith)

  tail-cases :
      ((t : Mm) × (tail s a b s ≡ done 1 t) × IsShared s a b t)
      ⊎ ((t : Mm) × (tail s a b s ≡ halted panic t) × (translate s.word a ≢ none))
      ⊎ ((tail s a b s ≡ halted exited s)
          × (is_present (dir_entry s.word a) ≡ false)
          × ((j : ℕ) → j < paging_pages → get_or s.mem_map j used ≢ 0))
  tail-cases = elim (Bool-cases (is_present (dir_entry s.word a))) [
    | inl p ↦
        elim (tail-IsShared s s a b v ha hb can (there-HasTable s a w p) few fit
          (dir_entry s.word a) (table_at-there s a p) refl) [ inl x ↦ inl x | inr y ↦ inr (inl y) ]
    | inr p ↦ elim (Option-cases (scan paging_pages s.mem_map)) [
      | inl full ↦ inr (
          inr (
            bind-halted (table_at (a / 2 ^ 22 * 4)) (share_in s a b) (table_at-full s a p full),
            p,
            scan-none paging_pages s.mem_map full,
          ))
      | inr (i, found) ↦
          let k = took-Took v i found in
          elim (tail-IsShared s (with_new s i a) a b v ha hb can (new-HasTable s v w i a ha p k) few
            fit (page_at i) (table_at-new s i a ha p found) (new_table i p k)) [
              | inl x ↦ inl x
              | inr y ↦ inr (inl y)
            ]
    ]
  ]

-- try_to_share returns 0 with nothing changed when the page of the other task is not present, has
-- been written to or is outside the counted memory. Otherwise it returns 1, and the page is mapped
-- at the same place of the current task, both entries are without the write bit, its use count is
-- one higher, and no other translation has changed; or it panics when a page is there already; or
-- the process exits with nothing changed when a page table is missing and no page is free. It
-- holds for a page map with its invariant, tables that are apart from each other and from the
-- directory and in use, code bases below 2^32 that are multiples of 64 megabytes, an address below
-- that, and a page to share that has from 1 to 254 uses.
pub try_to_share-IsShared :
    (s : Mm) (address to from : ℕ)
    → IsMm s
    → IsWalk s
    → address < 2 ^ 26
    → to < 2 ^ 32
    → from < 2 ^ 32
    → to % 2 ^ 26 ≡ 0
    → from % 2 ^ 26 ≡ 0
    → (can_share s (from + address) ≡ true
        → (0 < uses s (page_of (table_entry s.word (from + address))))
          × (uses s (page_of (table_entry s.word (from + address))) < 255))
    → ((can_share s (from + address) ≡ false) × (try_to_share address to from s ≡ done 0 s))
      ⊎ ((t : Mm) × (try_to_share address to from s ≡ done 1 t)
          × IsShared s (to + address) (from + address) t)
      ⊎ ((t : Mm) × (try_to_share address to from s ≡ halted panic t)
          × (translate s.word (to + address) ≢ none))
      ⊎ ((try_to_share address to from s ≡ halted exited s)
          × (is_present (dir_entry s.word (to + address)) ≡ false)
          × ((j : ℕ) → j < paging_pages → get_or s.mem_map j used ≢ 0))
try_to_share-IsShared s address to from v w h ht hf zt zf counts =
    elim (Bool-cases (can_share s (from + address))) [
      | inr cannot ↦ inl (cannot, opened ∙ rw cannot refl)
      | inl can ↦ inr (
          rw (opened, can)
            (tail-cases s (to + address) (from + address) v w (omega arith) (omega arith) can
              (counts can).0 (counts can).1))
    ]
  where
    opened :
        try_to_share address to from s
        ≡ (if can_share s (from + address)
              then tail s (to + address) (from + address)
              else return 0)
            s
    opened = try_to_share-open s address to from h ht hf zt zf
