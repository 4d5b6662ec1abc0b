-- ===== src/Fs/Truncate/Tests.antt =====
-- A file of two blocks, one of them behind i_zone[7], that is truncated.
use linux_0_11_read.Prelude.{
  ℕ, ◌≡◌, refl, [], ◌∷◌, ◌++◌, ◌&&◌, ◌==◌, if◌then◌else◌, true, false, replicate, map, Kernel, done,
  halted,
}
use linux_0_11_read.Fs.Inode.{Store, Mapped, short_at}
use linux_0_11_read.Fs.Truncate.{free_words, free_direct, truncate}

abbrev release : ℕ → ℕ → Kernel Store (Unit {0})
release dev nr s =
    done tt (record s { used = λ d b. if (d == dev) && (b == nr) then false else s.used d b })

abbrev file : Mapped
file = record {
  inode = record {
    i_mode = 0o100644;
    i_size = 8192;
    i_dev = 1;
    i_zone = 40 ∷ replicate 6 0 ++ (41 ∷ 0 ∷ []);
    i_dirt = false;
    i_atime = 0;
    i_mtime = 0;
    i_ctime = 0;
  };
  store = record { byte = λ d b k. if (b == 41) && (k == 6) then 42 else 0; used = λ d b. true };
}

abbrev after : Mapped
after = elim (truncate 9 (λ d b. true) release file) [ done a s ↦ s | halted h s ↦ s ]

freed : map (after.store.used 1) (40 ∷ 41 ∷ 42 ∷ 43 ∷ []) ≡ false ∷ false ∷ false ∷ true ∷ []
unfolding truncate free_direct free_words short_at
freed = refl

no_zones : after.inode.i_zone ≡ replicate 9 0
unfolding truncate free_direct free_words short_at
no_zones = refl
