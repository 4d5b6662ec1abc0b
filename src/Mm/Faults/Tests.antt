-- ===== src/Mm/Faults/Tests.antt =====
-- The theorem on shared pages, at a machine.
use linux_0_11_read.Prelude.{
  ℕ, ◌/◌, ◌^◌, ◌<◌, ◌≡◌, ◌≢◌, ◌⊎◌, refl, none, done, halted, exited, panic, arith, false, ◌==◌,
  if◌then◌else◌, get_or,
}
use linux_0_11_read.Mm.Pages.{Mm, paging_pages, used}
use linux_0_11_read.Mm.Pages.Alloc.{IsMm}
use linux_0_11_read.Mm.Pages.Machine.{machine, machine-IsMm, machine_used}
use linux_0_11_read.Mm.Tables.{is_present}
use linux_0_11_read.Mm.Tables.Walk.{dir_entry, table_entry, translate}
use linux_0_11_read.Mm.Tables.Put.{IsWalk}
use linux_0_11_read.Mm.Faults.{try_to_share}
use linux_0_11_read.Mm.Faults.Guards.{can_share}
use linux_0_11_read.Mm.Tables.Protect.{page_of}
use linux_0_11_read.Mm.Faults.Share.{uses, IsShared, try_to_share-IsShared}

-- A task at 64 megabytes has a page at 2 megabytes, through a page table at 0x1000.
abbrev running : Mm
running = record machine {
  word = λ a. if a == 64 then 0x1007 else if a == 0x1000 then 0x200005 else 0;
}

running-IsMm : IsMm running
running-IsMm = record {
  pages = machine-IsMm.pages;
  high_from = machine-IsMm.high_from;
  high_to = machine-IsMm.high_to;
  free_below = machine-IsMm.free_below;
}

entry_of :
    (b : ℕ) → b < 2 ^ 32 → dir_entry running.word b ≡ (if b / 2 ^ 22 == 16 then 0x1007 else 0)
unfolding dir_entry
entry_of b h = ground (arith, h)

running-IsWalk : IsWalk running
running-IsWalk = record {
  tables = record {
    above = λ b h p. ground (arith, entry_of b h, p);
    apart = λ b c hb hc p q e. ground (arith, entry_of b hb, entry_of c hc, p, q);
  };
  not_free = λ b i hb hi p e. absurd (ground (arith, entry_of b hb, p, e));
}

-- The kernel's pages count 100 uses.
page_uses : uses running (page_of (table_entry running.word 0x4000000)) ≡ 100
unfolding table_entry
page_uses = machine_used

try_to_share-IsShared_example :
    ((can_share running 0x4000000 ≡ false)
      × (try_to_share 0 0x8000000 0x4000000 running ≡ done 0 running))
    ⊎ ((t : Mm) × (try_to_share 0 0x8000000 0x4000000 running ≡ done 1 t)
        × IsShared running 0x8000000 0x4000000 t)
    ⊎ ((t : Mm) × (try_to_share 0 0x8000000 0x4000000 running ≡ halted panic t)
        × (translate running.word 0x8000000 ≢ none))
    ⊎ ((try_to_share 0 0x8000000 0x4000000 running ≡ halted exited running)
        × (is_present (dir_entry running.word 0x8000000) ≡ false)
        × ((j : ℕ) → j < paging_pages → get_or running.mem_map j used ≢ 0))
try_to_share-IsShared_example =
    try_to_share-IsShared running 0 0x8000000 0x4000000 running-IsMm running-IsWalk (omega arith)
      (omega arith) (omega arith) refl refl
      (λ can. (rw page_uses (omega arith), rw page_uses (omega arith)))
