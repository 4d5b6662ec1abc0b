-- ===== src/Mm/Pages/Machine.antt =====
-- A machine that has booted with two free pages, the last two of 16 megabytes.
use linux_0_11_read.Prelude.{◌≡◌, refl, [], some, done, arith, get_or}
use linux_0_11_read.Mm.Pages.{Mm, paging_pages, used, scan, zero_from, all_used, get_free_page}
use linux_0_11_read.Mm.Pages.Alloc.{IsMm, took, page_at, get_free_page-some}
use linux_0_11_read.Mm.Pages.Init.{booted, booted-IsMm}

abbrev pub blank : Mm
blank = record { mem_map = []; high_memory = 0; word = λ a. 0 }

abbrev pub machine : Mm
machine = booted 0xffe000 0x1000000 blank

pub machine-IsMm : IsMm machine
machine-IsMm = booted-IsMm blank 0xffe000 0x1000000 (omega arith) refl (omega arith) (omega arith)

pub machine_scan : scan paging_pages machine.mem_map ≡ some 3839
unfolding scan zero_from all_used
machine_scan = refl

pub machine_takes : get_free_page machine ≡ done (page_at 3839) (took machine 3839)
machine_takes = get_free_page-some machine 3839 machine_scan

-- A page that is not free.
pub machine_used : get_or machine.mem_map 256 used ≡ used
unfolding zero_from all_used
machine_used = refl
