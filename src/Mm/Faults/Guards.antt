-- ===== src/Mm/Faults/Guards.antt =====
-- The tests at the head of `try_to_share`.
use linux_0_11_read.Prelude.{
  ℕ, ◌+◌, ◌*◌, ◌/◌, ◌%◌, ◌^◌, ◌<◌, ◌≡◌, refl, ◌∙◌, sym, ap, Bool, true, false, ◌&&◌, ◌||◌, not,
  Kernel, return, ◌>>=◌, leb, ltb, if◌then◌else◌, clear_low,
}
use linux_0_11_read.Mm.Pages.{Mm, low_mem}
use linux_0_11_read.Mm.Tables.{is_present}
use linux_0_11_read.Mm.Tables.Walk.{dir_entry, entry_slot, table_entry}
use linux_0_11_read.Mm.Tables.Protect.{page_of}
use linux_0_11_read.Mm.Faults.{is_clean, table_at, share_entry, try_to_share}
use linux_0_11_read.Mm.Faults.Entries.{shared_dir_lem, slot_lem}

-- The page at `b` is there, has not been written to, and is one of those that are counted.
abbrev pub can_share : Mm → ℕ → Bool
can_share s b =
    is_present (dir_entry s.word b)
    && is_clean (table_entry s.word b)
    && not (leb s.high_memory (page_of (table_entry s.word b)))
    && not (ltb (page_of (table_entry s.word b)) low_mem)

abbrev pub share_in : Mm → ℕ → ℕ → ℕ → Kernel Mm ℕ
share_in s a b to =
    share_entry (entry_slot s.word b) (clear_low to 12 + 4 * (a / 2 ^ 12 % 1024))
      (page_of (table_entry s.word b))

abbrev pub tail : Mm → ℕ → ℕ → Kernel Mm ℕ
tail s a b = table_at (a / 2 ^ 22 * 4) >>= λ to.
    share_entry (entry_slot s.word b) (clear_low to 12 + 4 * (a / 2 ^ 12 % 1024))
      (page_of (table_entry s.word b))

guards :
    (present clean high low : Bool) (k l : Kernel Mm ℕ)
    → (if not present then l else if not clean then l else if high || low then l else k)
      ≡ (if present && clean && not high && not low then k else l)
guards false clean high low k l = refl
guards true false high low k l = refl
guards true true true low k l = refl
guards true true false true k l = refl
guards true true false false k l = refl

-- Before the page table of `a` is looked for.
pub try_to_share-open :
    (s : Mm) (address to from : ℕ)
    → address < 2 ^ 26
    → to < 2 ^ 32
    → from < 2 ^ 32
    → to % 2 ^ 26 ≡ 0
    → from % 2 ^ 26 ≡ 0
    → try_to_share address to from s
      ≡ (if can_share s (from + address) then tail s (to + address) (from + address) else return 0)
          s
unfolding try_to_share dir_entry table_entry entry_slot
try_to_share-open s address to from h ht hf zt zf =
    rw
      (
        try_to_share,
        shared_dir_lem address to h ht zt,
        shared_dir_lem address from h hf zf,
        slot_lem address to h zt,
        same_slot,
      )
      (ap (λ k. k s)
        (guards (is_present dir) (is_clean entry) (leb s.high_memory (page_of entry))
          (ltb (page_of entry) low_mem) rest (return 0)))
  where
    same_slot : 4 * ((from + address) / 2 ^ 12 % 1024) ≡ 4 * ((to + address) / 2 ^ 12 % 1024)
    same_slot = sym (slot_lem address from h zf) ∙ slot_lem address to h zt

    dir : ℕ
    dir = s.word ((from + address) / 2 ^ 22 * 4)

    entry : ℕ
    entry = s.word (clear_low dir 12 + 4 * ((to + address) / 2 ^ 12 % 1024))

    rest : Kernel Mm ℕ
    rest = table_at ((to + address) / 2 ^ 22 * 4) >>= λ t.
        share_entry (clear_low dir 12 + 4 * ((to + address) / 2 ^ 12 % 1024))
          (clear_low t 12 + 4 * ((to + address) / 2 ^ 12 % 1024)) (page_of entry)
