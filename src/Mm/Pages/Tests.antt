-- ===== src/Mm/Pages/Tests.antt =====
-- Runs of the allocator, and its theorems on a machine with two free pages, the last two.
use linux_0_11_read.Prelude.{ℕ, ◌<◌, ◌≡◌, ◌≢◌, ◌⊎◌, refl, done, arith, get_or, set}
use linux_0_11_read.Mm.Pages.{
  Mm, low_mem, paging_pages, used, zero_from, all_used, get_free_page, free_page, count_free,
}
use linux_0_11_read.Mm.Pages.Alloc.{Took, took, page_at, get_free_page_lem}
use linux_0_11_read.Mm.Pages.Machine.{machine, machine-IsMm, machine_takes}
use linux_0_11_read.Mm.Pages.Free.{free_page-get_free_page}

kernel_page_in_use : get_or machine.mem_map 0 used ≡ 100
unfolding zero_from all_used
kernel_page_in_use = refl

two_free : count_free machine.mem_map ≡ 2
unfolding count_free zero_from all_used
two_free = refl

kernel_page_freed :
    free_page low_mem machine ≡ done tt (record machine { mem_map = set machine.mem_map 0 99 })
unfolding free_page zero_from all_used
kernel_page_freed = refl

get_free_page_lem_example :
    ((i : ℕ) × (t : Mm) × (get_free_page machine ≡ done (page_at i) t) × Took machine i t)
    ⊎ ((get_free_page machine ≡ done 0 machine)
        × ((j : ℕ) → j < paging_pages → get_or machine.mem_map j used ≢ 0))
get_free_page_lem_example = get_free_page_lem machine machine-IsMm

free_page-get_free_page_example :
    (u : Mm) × (free_page 0xfff000 (took machine 3839) ≡ done tt u) × (u.mem_map ≡ machine.mem_map)
free_page-get_free_page_example =
    free_page-get_free_page machine machine-IsMm machine_takes (omega arith)
