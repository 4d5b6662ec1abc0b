-- ===== src/Mm/Faults/Table.antt =====
-- The page table that `try_to_share` finds or makes for the current task.
use linux_0_11_read.Prelude.{
  ℕ, ◌*◌, ◌/◌, ◌^◌, ◌<◌, ◌≡◌, ◌≢◌, refl, ◌∙◌, sym, ap, none, some, true, false, done, halted,
  exited, arith, get_or, length,
}
use linux_0_11_read.Mm.Pages.{Mm, paging_pages, used, scan}
use linux_0_11_read.Mm.Pages.Alloc.{
  IsMm, Took, took, page_at, get_free_page-some, get_free_page-none,
}
use linux_0_11_read.Mm.Tables.{is_present}
use linux_0_11_read.Mm.Tables.Walk.{
  dir_entry, entry_slot, table_entry, translate, IsApart, dir_slot_lem,
}
use linux_0_11_read.Mm.Tables.Put.{
  IsWalk, with_table, dir_entry-with_table, with_table_present, with_table-IsApart,
  translate-with_table,
}
use linux_0_11_read.Mm.Faults.{table_at}

-- The state when `a` has a page table: the tables of `s` are as they were.
pub record HasTable (s : Mm) (a : ℕ) (t : Mm) : Type 0 where
  pub apart : IsApart t.word
  pub present : is_present (dir_entry t.word a) ≡ true
  pub same_dir :
      (b : ℕ)
      → b < 2 ^ 32
      → is_present (dir_entry s.word b) ≡ true
      → dir_entry t.word b ≡ dir_entry s.word b
  pub same_entry :
      (b : ℕ)
      → b < 2 ^ 32
      → is_present (dir_entry s.word b) ≡ true
      → table_entry t.word b ≡ table_entry s.word b
  pub same : (b : ℕ) → b < 2 ^ 32 → translate t.word b ≡ translate s.word b
  pub counts :
      (j : ℕ) → get_or s.mem_map j used ≢ 0 → get_or t.mem_map j used ≡ get_or s.mem_map j used
  pub size : length t.mem_map ≡ length s.mem_map

abbrev pub with_new : Mm → ℕ → ℕ → Mm
with_new s i a = record (took s i) { word = with_table s i a }

pub table_at-there :
    (s : Mm) (a : ℕ)
    → is_present (dir_entry s.word a) ≡ true
    → table_at (a / 2 ^ 22 * 4) s ≡ done (dir_entry s.word a) s
unfolding table_at dir_entry
table_at-there s a p = rw p refl

pub table_at-new :
    (s : Mm) (i a : ℕ)
    → a < 2 ^ 32
    → is_present (dir_entry s.word a) ≡ false
    → scan paging_pages s.mem_map ≡ some i
    → table_at (a / 2 ^ 22 * 4) s ≡ done (page_at i) (with_new s i a)
unfolding table_at dir_entry
table_at-new s i a ha p found = ground (arith, p, get_free_page-some s i found, dir_slot_lem a ha)

pub table_at-full :
    (s : Mm) (a : ℕ)
    → is_present (dir_entry s.word a) ≡ false
    → scan paging_pages s.mem_map ≡ none
    → table_at (a / 2 ^ 22 * 4) s ≡ halted exited s
unfolding table_at dir_entry
table_at-full s a p full = ground (arith, p, get_free_page-none s full)

pub there-HasTable :
    (s : Mm) (a : ℕ) → IsWalk s → is_present (dir_entry s.word a) ≡ true → HasTable s a s
there-HasTable s a w p = record {
  apart = w.tables;
  present = p;
  same_dir = λ b hb q. refl;
  same_entry = λ b hb q. refl;
  same = λ b hb. refl;
  counts = λ j ne. refl;
  size = refl;
}

module _ (s : Mm) (v : IsMm s) (w : IsWalk s) (i a : ℕ) (ha : a < 2 ^ 32)
    (p : is_present (dir_entry s.word a) ≡ false) (k : Took s i (took s i)) where
  new_dir :
      (b : ℕ)
      → b < 2 ^ 32
      → is_present (dir_entry s.word b) ≡ true
      → dir_entry (with_table s i a) b ≡ dir_entry s.word b
  unfolding dir_entry
  new_dir b hb q =
      ground (arith, dir_entry-with_table s v w i a ha k.was_free k.in_range b hb, other)
    where
      other : b / 2 ^ 22 ≢ a / 2 ^ 22
      other e = ground (arith, p, q, ap (λ x. is_present (s.word (x * 4))) e)

  new_entry :
      (b : ℕ)
      → b < 2 ^ 32
      → is_present (dir_entry s.word b) ≡ true
      → table_entry (with_table s i a) b ≡ table_entry s.word b
  unfolding table_entry entry_slot
  new_entry b hb q =
      rw (new_dir b hb q)
        (ground (arith, w.tables.above b hb q, w.not_free b i hb k.in_range q, k.was_free))

  pub new-HasTable : HasTable s a (with_new s i a)
  new-HasTable = record {
    apart = with_table-IsApart s v w i a ha k.was_free k.in_range;
    present = with_table_present s v w i a ha k.was_free k.in_range;
    same_dir = new_dir;
    same_entry = new_entry;
    same = λ b hb. translate-with_table s v w i a ha k.was_free k.in_range b hb p;
    counts = λ j ne. k.others j (λ e. ne (ap (λ x. get_or s.mem_map x used) (sym e) ∙ k.was_free));
    size = k.same_size;
  }
