-- ===== src/Mm/Tables/Tests.antt =====
-- The theorems on page tables, at a machine.
use linux_0_11_read.Prelude.{
  ℕ, ◌+◌, ◌/◌, ◌%◌, ◌^◌, ◌<◌, ◌≡◌, ◌≢◌, ◌⊎◌, inl, refl, some, done, halted, exited, arith, true,
  false, ◌==◌, if◌then◌else◌, get_or,
}
use linux_0_11_read.Mm.Pages.{Mm, paging_pages, used}
use linux_0_11_read.Mm.Pages.Alloc.{IsMm}
use linux_0_11_read.Mm.Pages.Init.{entry-booted}
use linux_0_11_read.Mm.Pages.Machine.{blank, machine, machine-IsMm}
use linux_0_11_read.Mm.Tables.{is_present, put_page, un_wp_page, copy_table}
use linux_0_11_read.Mm.Tables.Walk.{dir_entry, translate}
use linux_0_11_read.Mm.Tables.Put.{IsWalk, put_page_lem}
use linux_0_11_read.Mm.Tables.Protect.{IsMapped, IsPrivate, is_sole, un_wp_page_lem}
use linux_0_11_read.Mm.Tables.Fork.{Copied, copy_table-Copied}

no_entry : (b : ℕ) → is_present (dir_entry machine.word b) ≢ true
unfolding dir_entry
no_entry b = λ e. ground arith

machine-IsWalk : IsWalk machine
machine-IsWalk = record {
  tables = record {
    above = λ b h p. absurd (no_entry b p);
    apart = λ b c hb hc p q e. absurd (no_entry b p);
  };
  not_free = λ b i hb hi p e. absurd (no_entry b p);
}

-- The first page of a process, where there is no page table yet.
put_page_lem_example :
    ((t : Mm) × (put_page 0x300000 0x4000000 machine ≡ done 0x300000 t)
      × ((b : ℕ)
          → b < 2 ^ 32
          → translate t.word b ≡ (
              if b / 2 ^ 12 == 0x4000000 / 2 ^ 12
              then some (0x300000 + b % 4096)
              else translate machine.word b)))
    ⊎ ((put_page 0x300000 0x4000000 machine ≡ done 0 machine)
        × (is_present (dir_entry machine.word 0x4000000) ≡ false)
        × ((j : ℕ) → j < paging_pages → get_or machine.mem_map j used ≢ 0))
put_page_lem_example =
    put_page_lem machine 0x300000 0x4000000 machine-IsMm machine-IsWalk refl (omega arith)

-- The entry at 0x1000 maps a page of the kernel, read-only.
abbrev mapped : Mm
mapped = record machine { word = λ a. if a == 0x1000 then 0x2005 else 0 }

mapped-IsMapped : IsMapped mapped 0x1000
mapped-IsMapped = record {
  present = refl;
  below = omega arith;
  counted = λ i h e. absurd (omega arith);
  byte = λ i h. ground (
    arith,
    entry-booted blank 0xffe000 0x1000000 (omega arith) refl (omega arith) (omega arith) i h,
  );
  elsewhere = omega arith;
  table = λ i h e. absurd (omega arith);
}

mapped-IsMm : IsMm mapped
mapped-IsMm = record {
  pages = machine-IsMm.pages;
  high_from = machine-IsMm.high_from;
  high_to = machine-IsMm.high_to;
  free_below = machine-IsMm.free_below;
}

un_wp_page_lem_example :
    ((t : Mm) × (un_wp_page 0x1000 mapped ≡ done tt t) × IsPrivate mapped 0x1000 t)
    ⊎ ((un_wp_page 0x1000 mapped ≡ halted exited mapped)
        × (is_sole mapped 0x1000 ≡ false)
        × ((j : ℕ) → j < paging_pages → get_or mapped.mem_map j used ≢ 0))
un_wp_page_lem_example = un_wp_page_lem mapped 0x1000 mapped-IsMm mapped-IsMapped

copy_table-Copied_example :
    (t : Mm) × (copy_table 1024 0x1000 0x2000 mapped ≡ done tt t)
    × Copied mapped 1024 0x1000 0x2000 t
copy_table-Copied_example = copy_table-Copied 1024 mapped 0x1000 0x2000 (inl (omega arith))
