-- ===== src/Fs/Inode/Tests.antt =====
-- A device of four free zones, and the zones of a file on it.
use linux_0_11_read.Prelude.{
  ℕ, zero, suc, ◌+◌, ◌^◌, ◌<◌, ◌≡◌, ◌≢◌, refl, sym, inl, inr, true, false, ◌&&◌, ◌==◌,
  if◌then◌else◌, arith, Bool-cases, replicate, done, halted,
}
use linux_0_11_read.Fs.Inode.{
  Store, Mapped, short_at, put_short, zone_made, indirect, double_indirect, bmap_in, bmap,
  create_block,
}
use linux_0_11_read.Fs.Inode.Zones.{IsAllocator, IsMapped, bmap-create_block}

-- The zone z is taken, and cleared.
abbrev give : ℕ → Store → ℕ → ℕ × Store
give dev s z = (
  z,
  record {
    byte = λ d b k. if (d == dev) && (b == z) then 0 else s.byte d b k;
    used = λ d b. if (d == dev) && (b == z) then true else s.used d b;
  },
)

-- The last of the n zones from 50 on that is free.
unfoldable pick : ℕ → ℕ → Store → ℕ × Store
pick zero dev s = (0, s)
pick (suc n) dev s =
    let rest = pick n dev s in if s.used dev (50 + n) then rest else give dev s (50 + n)

record Allows (dev : ℕ) (s : Store) (r : ℕ × Store) : Type 0 where
  fits : r.0 < 2 ^ 16
  fresh : r.0 ≢ 0 → s.used dev r.0 ≡ false
  taken : r.0 ≢ 0 → r.1.used dev r.0 ≡ true
  stays : (b : ℕ) → s.used dev b ≡ true → r.1.used dev b ≡ true
  keeps : (b k : ℕ) → s.used dev b ≡ true → r.1.byte dev b k ≡ s.byte dev b k
  cleared : (k : ℕ) → r.0 ≢ 0 → r.1.byte dev r.0 k ≡ 0

give-Allows :
    (dev : ℕ) (s : Store) (z : ℕ) → z < 2 ^ 16 → s.used dev z ≡ false → Allows dev s (give dev s z)
give-Allows dev s z h free = record {
  fits = h;
  fresh = λ nz. free;
  taken = λ nz. ground arith;
  stays = λ b u. ground (arith, u);
  keeps = λ b k u. elim (Bool-cases (b == z)) [
    | inl same ↦
        let e : b ≡ z = ground (arith, same) in absurd (ground (arith, u, rw (sym e) at free))
    | inr other ↦ ground (arith, other)
  ];
  cleared = λ k nz. ground arith;
}

pick-Allows : (n : ℕ) (dev : ℕ) (s : Store) → n < 100 → Allows dev s (pick n dev s)
unfolding pick
pick-Allows zero dev s h = record {
  fits = omega arith;
  fresh = λ nz. absurd (nz refl);
  taken = λ nz. absurd (nz refl);
  stays = λ b u. u;
  keeps = λ b k u. refl;
  cleared = λ k nz. absurd (nz refl);
}
pick-Allows (suc n) dev s h = elim (Bool-cases (s.used dev (50 + n))) [
  | inl used ↦ rw (used, pick) (pick-Allows n dev s (omega (arith, h)))
  | inr free ↦ rw (free, pick) (give-Allows dev s (50 + n) (omega (arith, h)) free)
]

pick-IsAllocator : IsAllocator (pick 4)
pick-IsAllocator = record {
  fits = λ dev s. (pick-Allows 4 dev s (omega arith)).fits;
  fresh = λ dev s. (pick-Allows 4 dev s (omega arith)).fresh;
  taken = λ dev s. (pick-Allows 4 dev s (omega arith)).taken;
  stays = λ dev b s. (pick-Allows 4 dev s (omega arith)).stays b;
  keeps = λ dev b k s. (pick-Allows 4 dev s (omega arith)).keeps b k;
  cleared = λ dev k s. (pick-Allows 4 dev s (omega arith)).cleared k;
}

abbrev empty : Mapped
empty = record {
  inode = record {
    i_mode = 0o100644;
    i_size = 0;
    i_dev = 1;
    i_zone = replicate 9 0;
    i_dirt = false;
    i_atime = 0;
    i_mtime = 0;
    i_ctime = 0;
  };
  store = record { byte = λ d b k. 0; used = λ d b. false };
}

-- The block 7 + 512 + 513 of the file takes three zones.
abbrev made : ℕ × Mapped
made = elim (create_block 9 (λ d b. true) (pick 4) 1032 empty) [
  | done nr t ↦ (nr, t)
  | halted h t ↦ (0, t)
]

empty-IsMapped : IsMapped empty
empty-IsMapped = record {
  zones = refl;
  in_use = λ h. absurd (h refl);
  apart = λ h. absurd (h refl);
}

bmap-create_block_example : bmap 9 (λ d b. true) (pick 4) 1032 made.1 ≡ done 51 made.1
unfolding bmap_in double_indirect indirect zone_made short_at put_short pick
bmap-create_block_example =
    bmap-create_block 9 (λ d b. true) (pick 4) pick-IsAllocator 1032 51 empty made.1 empty-IsMapped
      refl (omega arith)
