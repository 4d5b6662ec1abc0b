-- ===== src/Mm/Faults/Entries.antt =====
-- Two page table entries for one page, which neither task may write.
use linux_0_11_read.Prelude.{
  ℕ, ◌+◌, ◌*◌, ◌/◌, ◌%◌, ◌^◌, ◌<◌, ◌≡◌, refl, ap, some, true, arith, ◌==◌, if◌then◌else◌,
  ℕ_discrete,
}
use linux_0_11_read.Mm.Pages.{store}
use linux_0_11_read.Mm.Tables.{mask_ffc, and_not_2, is_present}
use linux_0_11_read.Mm.Tables.Walk.{dir_entry, entry_slot, table_entry, translate, IsApart}
use linux_0_11_read.Mm.Tables.Protect.{page_of}
use linux_0_11_read.Mm.Faults.{shared_dir}

-- A present entry written into a table that is there.
translate-store :
    (w : ℕ → ℕ) (v a b : ℕ)
    → IsApart w
    → a < 2 ^ 32
    → b < 2 ^ 32
    → is_present v ≡ true
    → is_present (dir_entry w a) ≡ true
    → translate (store w (entry_slot w a) v) b
      ≡ (if b / 2 ^ 12 == a / 2 ^ 12 then some (page_of v + b % 4096) else translate w b)
unfolding translate
translate-store w v a b apart ha hb pv p = elim (ℕ_discrete (b / 2 ^ 22) (a / 2 ^ 22)) [
  | yes e ↦ ground (arith, apart.above a ha p, apart.above b hb)
  | no ne ↦ ground (arith, apart.above a ha p, apart.above b hb, apart.apart b a hb ha)
]

-- The directory is not changed by it.
dir_entry-store :
    (w : ℕ → ℕ) (v a b : ℕ)
    → IsApart w
    → a < 2 ^ 32
    → b < 2 ^ 32
    → is_present (dir_entry w a) ≡ true
    → dir_entry (store w (entry_slot w a) v) b ≡ dir_entry w b
unfolding dir_entry entry_slot
dir_entry-store w v a b apart ha hb p = ground (arith, apart.above a ha p)

pub shared_dir_lem :
    (address code : ℕ)
    → address < 2 ^ 26
    → code < 2 ^ 32
    → code % 2 ^ 26 ≡ 0
    → shared_dir address code ≡ (code + address) / 2 ^ 22 * 4
shared_dir_lem address code h c z = omega arith

pub slot_lem :
    (address code : ℕ)
    → address < 2 ^ 26
    → code % 2 ^ 26 ≡ 0
    → mask_ffc (address / 2 ^ 10) ≡ 4 * ((code + address) / 2 ^ 12 % 1024)
slot_lem address code h z = omega arith

dir_entry-IsApart :
    (w u : ℕ → ℕ) → IsApart w → ((b : ℕ) → b < 2 ^ 32 → dir_entry u b ≡ dir_entry w b) → IsApart u
dir_entry-IsApart w u v same = record {
  above = λ b hb p. rw (same b hb) (v.above b hb (rw (same b hb) at p));
  apart = λ b c hb hc p q e.
      v.apart b c hb hc (rw (same b hb) at p) (rw (same c hc) at q)
        (rw (same b hb, same c hc) at e);
}

-- The memory where the entry of `b` has lost its write bit, and that of `a` is the same.
abbrev pub read_only : (ℕ → ℕ) → ℕ → ℕ
read_only w b = and_not_2 (table_entry w b)

abbrev pub protected : (ℕ → ℕ) → ℕ → ℕ → ℕ
protected w b = store w (entry_slot w b) (read_only w b)

abbrev pub shared : (ℕ → ℕ) → ℕ → ℕ → ℕ → ℕ
shared w a b = store (protected w b) (entry_slot w a) (read_only w b)

module _ (w : ℕ → ℕ) (a b : ℕ) (v : IsApart w) (ha : a < 2 ^ 32) (hb : b < 2 ^ 32)
    (pa : is_present (dir_entry w a) ≡ true) (pb : is_present (dir_entry w b) ≡ true)
    (p : is_present (table_entry w b) ≡ true) where
  present_read_only : is_present (read_only w b) ≡ true
  present_read_only = ground (arith, p)

  page_of-read_only : page_of (read_only w b) ≡ page_of (table_entry w b)
  page_of-read_only = ground (arith, p)

  protected-dir_entry : (c : ℕ) → c < 2 ^ 32 → dir_entry (protected w b) c ≡ dir_entry w c
  protected-dir_entry c hc = dir_entry-store w (read_only w b) b c v hb hc pb

  protected-IsApart : IsApart (protected w b)
  protected-IsApart = dir_entry-IsApart w (protected w b) v protected-dir_entry

  translate-same_page :
      (c : ℕ)
      → c / 2 ^ 12 ≡ b / 2 ^ 12
      → translate w c ≡ some (page_of (table_entry w b) + c % 4096)
  unfolding translate table_entry entry_slot dir_entry
  translate-same_page c e = rw (dirs, pages, pb, p) refl
    where
      dirs : c / 2 ^ 22 ≡ b / 2 ^ 22
      dirs = omega (arith, e)

      pages : c / 2 ^ 12 % 1024 ≡ b / 2 ^ 12 % 1024
      pages = ap (λ x. x % 1024) e

  translate-protected : (c : ℕ) → c < 2 ^ 32 → translate (protected w b) c ≡ translate w c
  translate-protected c hc = elim (ℕ_discrete (c / 2 ^ 12) (b / 2 ^ 12)) [
    | yes e ↦ ground (
      arith,
      translate-store w (read_only w b) b c v hb hc present_read_only pb,
      page_of-read_only,
      translate-same_page c e,
    )
    | no ne ↦ ground (arith, translate-store w (read_only w b) b c v hb hc present_read_only pb)
  ]

  entry_slot-protected : entry_slot (protected w b) a ≡ entry_slot w a
  unfolding entry_slot
  entry_slot-protected = rw (protected-dir_entry a ha) refl

  present_there : is_present (dir_entry (protected w b) a) ≡ true
  present_there = rw (protected-dir_entry a ha) pa

  shared-store : shared w a b ≡ store (protected w b) (entry_slot (protected w b) a) (read_only w b)
  shared-store = rw entry_slot-protected refl

  pub translate-shared :
      (c : ℕ)
      → c < 2 ^ 32
      → translate (shared w a b) c ≡ (
          if c / 2 ^ 12 == a / 2 ^ 12
          then some (page_of (table_entry w b) + c % 4096)
          else translate w c)
  translate-shared c hc =
      rw
        (
          shared-store,
          translate-store (protected w b) (read_only w b) a c protected-IsApart ha hc
              present_read_only present_there,
          page_of-read_only,
          translate-protected c hc,
        )
        refl

  shared-dir_entry : (c : ℕ) → c < 2 ^ 32 → dir_entry (shared w a b) c ≡ dir_entry w c
  shared-dir_entry c hc =
      rw
        (
          shared-store,
          dir_entry-store (protected w b) (read_only w b) a c protected-IsApart ha hc present_there,
        )
        (protected-dir_entry c hc)

  -- Neither task can write to the page.
  pub shared-read_only :
      (table_entry (shared w a b) a / 2 % 2 ≡ 0) × (table_entry (shared w a b) b / 2 % 2 ≡ 0)
  unfolding table_entry entry_slot
  shared-read_only = rw (shared-dir_entry a ha, shared-dir_entry b hb) (ground arith, ground arith)
