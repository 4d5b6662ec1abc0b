-- ===== src/Mm/Tables/Walk.antt =====
-- What the processor finds through the page tables, and how a written entry changes it.
use linux_0_11_read.Prelude.{
  ℕ, ◌+◌, ◌*◌, ◌/◌, ◌%◌, ◌^◌, ◌≤◌, ◌<◌, ◌≡◌, Option, none, some, true, arith, ◌==◌, if◌then◌else◌,
  clear_low, ℕ_discrete,
}
use linux_0_11_read.Mm.Pages.{store}
use linux_0_11_read.Mm.Tables.{or_7, is_present, dir_slot}

-- The directory entry of a linear address, and its page table entry.
unfoldable pub dir_entry : (ℕ → ℕ) → ℕ → ℕ
dir_entry w b = w (b / 2 ^ 22 * 4)

unfoldable pub entry_slot : (ℕ → ℕ) → ℕ → ℕ
unfolding dir_entry
entry_slot w b = clear_low (dir_entry w b) 12 + 4 * (b / 2 ^ 12 % 1024)

unfoldable pub table_entry : (ℕ → ℕ) → ℕ → ℕ
unfolding entry_slot
table_entry w b = w (entry_slot w b)

-- The physical address of a linear address: `none` is a page fault.
unfoldable pub translate : (ℕ → ℕ) → ℕ → Option ℕ
unfolding dir_entry table_entry
translate w b =
    if is_present (dir_entry w b)
    then if is_present (table_entry w b)
      then some (clear_low (table_entry w b) 12 + b % 4096)
      else none
    else none

-- No page table lies in the directory, and no two are the same page.
pub record IsApart (w : ℕ → ℕ) : Type 0 where
  pub above :
      (b : ℕ) → b < 2 ^ 32 → is_present (dir_entry w b) ≡ true → 4096 ≤ clear_low (dir_entry w b) 12
  pub apart :
      (b c : ℕ)
      → b < 2 ^ 32
      → c < 2 ^ 32
      → is_present (dir_entry w b) ≡ true
      → is_present (dir_entry w c) ≡ true
      → clear_low (dir_entry w b) 12 ≡ clear_low (dir_entry w c) 12
      → b / 2 ^ 22 ≡ c / 2 ^ 22

pub dir_slot_lem : (a : ℕ) → a < 2 ^ 32 → dir_slot a ≡ a / 2 ^ 22 * 4
dir_slot_lem a h = omega arith

-- Writing a page's entry into a table that is there maps that page, and no other.
pub translate-enter :
    (w : ℕ → ℕ) (page a b : ℕ)
    → IsApart w
    → a < 2 ^ 32
    → b < 2 ^ 32
    → page % 4096 ≡ 0
    → is_present (dir_entry w a) ≡ true
    → translate (store w (entry_slot w a) (or_7 page)) b
      ≡ (if b / 2 ^ 12 == a / 2 ^ 12 then some (page + b % 4096) else translate w b)
unfolding translate
translate-enter w page a b v ha hb aligned p = elim (ℕ_discrete (b / 2 ^ 22) (a / 2 ^ 22)) [
  | yes e ↦ ground (arith, v.above a ha p, v.above b hb)
  | no ne ↦ ground (arith, v.above a ha p, v.above b hb, v.apart b a hb ha)
]
