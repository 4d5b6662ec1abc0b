-- ===== src/Fs/Inode/Zones.antt =====
-- create_block makes what bmap finds.
use linux_0_11_read.Prelude.{
  ℕ, ◌+◌, ◌-◌, ◌*◌, ◌/◌, ◌%◌, ◌^◌, ◌<◌, ◌≡◌, ◌≢◌, refl, ap, ◌∙◌, sym, inl, inr, Bool, true, false,
  ◌||◌, ◌==◌, ltb, leb, is_neg, arith, Bool-cases, get_or, set, length, length-set, get_or-set_self,
  Outcome, done, halted,
}
use linux_0_11_read.Fs.Inode.{
  Store, Mapped, short_at, put_short, zone_at, zone_made, indirect, direct, single_indirect,
  double_indirect, bmap_in, bmap, create_block,
}

-- What new_block promises: a zone that was free, as a number of 16 bits, or 0; and the zones that
-- are in use stay so, with their bytes.
pub record IsAllocator (new_block : ℕ → Store → ℕ × Store) : Type 0 where
  pub fits : (dev : ℕ) (s : Store) → (new_block dev s).0 < 2 ^ 16
  pub fresh :
      (dev : ℕ) (s : Store) → (new_block dev s).0 ≢ 0 → s.used dev (new_block dev s).0 ≡ false
  pub taken :
      (dev : ℕ) (s : Store)
      → (new_block dev s).0 ≢ 0
      → (new_block dev s).1.used dev (new_block dev s).0 ≡ true
  pub stays : (dev b : ℕ) (s : Store) → s.used dev b ≡ true → (new_block dev s).1.used dev b ≡ true
  pub keeps :
      (dev b k : ℕ) (s : Store)
      → s.used dev b ≡ true
      → (new_block dev s).1.byte dev b k ≡ s.byte dev b k
  pub cleared :
      (dev k : ℕ) (s : Store)
      → (new_block dev s).0 ≢ 0
      → (new_block dev s).1.byte dev (new_block dev s).0 k ≡ 0

-- The file has nine zones; the block of i_zone[8] is in use, and is no entry of its own.
pub record IsMapped (s : Mapped) : Type 0 where
  pub zones : length s.inode.i_zone ≡ 9
  pub in_use : zone_at s.inode 8 ≢ 0 → s.store.used s.inode.i_dev (zone_at s.inode 8) ≡ true
  pub apart :
      zone_at s.inode 8 ≢ 0
      → (i : ℕ) → short_at s.store s.inode.i_dev (zone_at s.inode 8) i ≢ zone_at s.inode 8

pub short_at-put_short :
    (s : Store) (dev b i v : ℕ) → v < 2 ^ 16 → short_at (put_short s dev b i v) dev b i ≡ v
unfolding short_at put_short
short_at-put_short s dev b i v h = ground (arith, h)

put_short_else :
    (s : Store) (dev b c i j v : ℕ)
    → c ≢ b
    → short_at (put_short s dev b i v) dev c j ≡ short_at s dev c j
unfolding short_at put_short
put_short_else s dev b c i j v h = ground (arith, h)

module _ (now : ℕ) (readable : ℕ → ℕ → Bool) (new_block : ℕ → Store → ℕ × Store)
    (law : IsAllocator new_block) where
  -- What is made at a place is found there.
  indirect-made :
      (dev b i : ℕ) (s : Store)
      → (indirect now readable new_block true dev b i s).0 ≢ 0
      → (readable dev b ≡ true)
        × (short_at (indirect now readable new_block true dev b i s).1 dev b i
            ≡ (indirect now readable new_block true dev b i s).0)
  unfolding indirect
  indirect-made dev b i s h = elim (Bool-cases (readable dev b)) [
    | inr r ↦ absurd (h (rw (r, indirect) refl))
    | inl r ↦ elim (Bool-cases (short_at s dev b i == 0)) [
      | inr w ↦ (r, rw (r, w, indirect) refl)
      | inl w ↦ elim (Bool-cases ((new_block dev s).0 == 0)) [
        | inl none_left ↦
            let got : (indirect now readable new_block true dev b i s).0 ≡ (new_block dev s).0 =
              rw (r, w, indirect) refl in
            absurd (h (got ∙ ground (arith, none_left)))
        | inr z ↦ (
          r,
          rw (r, w, z, indirect)
              (short_at-put_short (new_block dev s).1 dev b i (new_block dev s).0 (law.fits dev s)),
        )
      ]
    ]
  ]

  indirect-read :
      (dev b i : ℕ) (s : Store)
      → readable dev b ≡ true
      → indirect now readable new_block false dev b i s ≡ (short_at s dev b i, s)
  unfolding indirect
  indirect-read dev b i s r = rw (r, indirect) refl

  indirect-used :
      (create : Bool) (dev b i c : ℕ) (s : Store)
      → s.used dev c ≡ true
      → (indirect now readable new_block create dev b i s).1.used dev c ≡ true
  unfolding indirect put_short
  indirect-used create dev b i c s u = ground (arith, u, law.stays dev c s u)

  new-short_at :
      (dev c j : ℕ) (s : Store)
      → s.used dev c ≡ true
      → short_at (new_block dev s).1 dev c j ≡ short_at s dev c j
  unfolding short_at
  new-short_at dev c j s u =
      omega (arith, law.keeps dev c (2 * j) s u, law.keeps dev c (2 * j + 1) s u)

  -- It changes no word of another block in use.
  indirect-else :
      (create : Bool) (dev b i c j : ℕ) (s : Store)
      → s.used dev c ≡ true
      → c ≢ b
      → short_at (indirect now readable new_block create dev b i s).1 dev c j ≡ short_at s dev c j
  unfolding indirect
  indirect-else create dev b i c j s u other =
      ground (arith, kept, put_short_else (new_block dev s).1 dev b c i j (new_block dev s).0 other)
    where
      kept : short_at (new_block dev s).1 dev c j ≡ short_at s dev c j
      kept = new-short_at dev c j s u

  -- It gives another block than those in use, or what was there.
  indirect-new :
      (dev b i : ℕ) (s : Store)
      → s.used dev b ≡ true
      → short_at s dev b i ≢ b
      → (indirect now readable new_block true dev b i s).0 ≢ 0
      → (indirect now readable new_block true dev b i s).0 ≢ b
  unfolding indirect
  indirect-new dev b i s u other h e = elim (Bool-cases (readable dev b)) [
    | inr r ↦ h (rw (r, indirect) refl)
    | inl r ↦ elim (Bool-cases (short_at s dev b i == 0)) [
      | inr w ↦ other (rw (r, w, indirect) at e)
      | inl w ↦
          let z : (new_block dev s).0 ≡ b = rw (r, w, indirect) at e in
          let nz : (new_block dev s).0 ≢ 0 = rw (r, w, indirect) at h in
          absurd (ground (arith, u, rw z at (law.fresh dev s nz)))
    ]
  ]

  -- i_zone[8], as create_block finds or makes it.
  made-IsMapped : (s : Mapped) → IsMapped s → IsMapped (zone_made now readable new_block true 8 s)
  unfolding zone_made short_at
  made-IsMapped s v = elim (Bool-cases (zone_at s.inode 8 == 0)) [
    | inr there ↦ rw (there, zone_made) v
    | inl none_there ↦ elim (Bool-cases ((new_block s.inode.i_dev s.store).0 == 0)) [
      | inl full ↦
          rw (none_there, fitting, full, zone_made)
            (record {
              zones = v.zones;
              in_use = λ h. absurd (h (ground (arith, none_there)));
              apart = λ h. absurd (h (ground (arith, none_there)));
            })
      | inr z ↦
          rw (none_there, fitting, z, zone_made)
            (record {
              zones = length-set s.inode.i_zone 8 (new_block s.inode.i_dev s.store).0 ∙ v.zones;
              in_use = λ h. rw made (law.taken s.inode.i_dev s.store (ground (arith, z)));
              apart =
                  λ h i e. absurd (ground (arith, z, zeros (ground (arith, z)) i, rw made at e));
            })
    ]
  ]
    where
      fitting : (new_block s.inode.i_dev s.store).0 % 2 ^ 16 ≡ (new_block s.inode.i_dev s.store).0
      fitting = omega (arith, law.fits s.inode.i_dev s.store)

      made :
          get_or (set s.inode.i_zone 8 (new_block s.inode.i_dev s.store).0) 8 0
          ≡ (new_block s.inode.i_dev s.store).0
      made =
          get_or-set_self s.inode.i_zone 8 (new_block s.inode.i_dev s.store).0 0
            (omega (arith, v.zones))

      zeros :
          (new_block s.inode.i_dev s.store).0 ≢ 0
          → (i : ℕ)
          → short_at
              (new_block s.inode.i_dev s.store).1
              s.inode.i_dev
              (new_block s.inode.i_dev s.store).0
              i
            ≡ 0
      zeros nz i = omega (
        arith,
        law.cleared s.inode.i_dev (2 * i) s.store nz,
        law.cleared s.inode.i_dev (2 * i + 1) s.store nz,
      )

  -- The zone that is made is found.
  found-made : (n : ℕ) (s : Mapped) → zone_made now readable new_block false n s ≡ s
  unfolding zone_made
  found-made n s = refl

  direct-found :
      (k : ℕ) (s : Mapped)
      → direct now readable new_block false k (direct now readable new_block true k s).1
        ≡ direct now readable new_block true k s
  unfolding direct
  direct-found k s = rw found-made refl

  single_indirect-found :
      (k : ℕ) (s : Mapped)
      → (single_indirect now readable new_block true k s).0 ≢ 0
      → single_indirect now readable new_block false k
          (single_indirect now readable new_block true k s).1
        ≡ single_indirect now readable new_block true k s
  unfolding single_indirect
  single_indirect-found k s h = elim (Bool-cases (zone_at t.inode 7 == 0)) [
    | inl z ↦ absurd (h (rw (z, single_indirect) refl))
    | inr z ↦
        let m =
          indirect-made t.inode.i_dev (zone_at t.inode 7) k t.store
            (rw (z, single_indirect) at h) in
        let e =
          indirect-read t.inode.i_dev (zone_at t.inode 7) k
            (indirect now readable new_block true t.inode.i_dev (zone_at t.inode 7) k t.store).1
            m.0 in
        rw (z, single_indirect, found-made, z, e, m.1) refl
  ]
    where
      t : Mapped
      t = zone_made now readable new_block true 7 s

  double_indirect-found :
      (k : ℕ) (s : Mapped)
      → IsMapped s
      → (double_indirect now readable new_block true k s).0 ≢ 0
      → double_indirect now readable new_block false k
          (double_indirect now readable new_block true k s).1
        ≡ double_indirect now readable new_block true k s
  unfolding double_indirect
  double_indirect-found k s v h = elim (Bool-cases (zone_at t.inode 8 == 0)) [
    | inl z ↦ absurd (h (rw (z, double_indirect) refl))
    | inr z ↦ elim (Bool-cases (first.0 == 0)) [
      | inl i ↦ absurd (h (rw (z, i, double_indirect) refl))
      | inr i ↦
          let ok = made-IsMapped s v in
          let nz : zone_at t.inode 8 ≢ 0 = ground (arith, z) in
          let ni : first.0 ≢ 0 = ground (arith, i) in
          let used = ok.in_use nz in
          let other : first.0 ≢ zone_at t.inode 8 =
            indirect-new dev (zone_at t.inode 8) (k / 512) t.store used (ok.apart nz (k / 512))
              ni in
          let outer = indirect-made dev (zone_at t.inode 8) (k / 512) t.store ni in
          let inner =
            indirect-made dev first.0 (k % 512) first.1 (rw (z, i, double_indirect) at h) in
          let same =
            indirect-else true dev first.0 (k % 512) (zone_at t.inode 8) (k / 512) first.1
              (indirect-used true dev (zone_at t.inode 8) (k / 512) (zone_at t.inode 8) t.store
                used)
              (λ e. other (sym e)) in
          let e1 = indirect-read dev (zone_at t.inode 8) (k / 512) second.1 outer.0 in
          let e2 = indirect-read dev first.0 (k % 512) second.1 inner.0 in
          rw (z, i, double_indirect, found-made, z, e1, same, outer.1, i, e2, inner.1) refl
    ]
  ]
    where
      t : Mapped
      t = zone_made now readable new_block true 8 s

      dev : ℕ
      dev = t.inode.i_dev

      first : ℕ × Store
      first = indirect now readable new_block true dev (zone_at t.inode 8) (k / 512) t.store

      second : ℕ × Store
      second = indirect now readable new_block true dev first.0 (k % 512) first.1

-- The result of a call, and the state it leaves; that of one that stops is 0.
result : Mapped → Outcome Mapped ℕ → ℕ × Mapped
result s (done a t) = (a, t)
result s (halted h t) = (0, s)

-- When create_block gives a zone for a block of a file, bmap finds the same zone for it afterwards
-- and changes nothing, for the direct blocks and those behind one or two blocks of numbers. The
-- allocator gives zones that were free, cleared and below 2^16, and keeps the bytes of those in
-- use; the block of i_zone[8] is in use and has not itself as an entry.
pub bmap-create_block :
    (now : ℕ) (readable : ℕ → ℕ → Bool) (new_block : ℕ → Store → ℕ × Store)
    → IsAllocator new_block
    → (block nr : ℕ) (s t : Mapped) → IsMapped s
    → create_block now readable new_block block s ≡ done nr t
    → nr ≢ 0
    → bmap now readable new_block block t ≡ done nr t
unfolding bmap_in result
bmap-create_block now readable new_block law block nr s t v e nz =
    elim (Bool-cases (is_neg block || leb (7 + 512 + 512 * 512) block)) [
      | inl h ↦ absurd (nz (sym (ap (λ q. q.0) (ap (result s) (rw (h, bmap_in) at e)))))
      | inr h ↦ elim (Bool-cases (ltb block 7)) [
        | inl a ↦
            let p : direct now readable new_block true block s ≡ (nr, t) =
              ap (result s) (rw (h, a, bmap_in) at e) in
            let found = rw p at (direct-found now readable new_block law block s) in
            rw (h, a, bmap_in, found) refl
        | inr a ↦ elim (Bool-cases (ltb (block - 7) 512)) [
          | inl b ↦
              let p : single_indirect now readable new_block true (block - 7) s ≡ (nr, t) =
                ap (result s) (rw (h, a, b, bmap_in) at e) in
              let found = rw p at (
                single_indirect-found now readable new_block law (block - 7) s
                  (λ z. nz (sym (ap (λ q. q.0) p) ∙ z))) in
              rw (h, a, b, bmap_in, found) refl
          | inr b ↦
              let p : double_indirect now readable new_block true (block - 7 - 512) s ≡ (nr, t) =
                ap (result s) (rw (h, a, b, bmap_in) at e) in
              let found = rw p at (
                double_indirect-found now readable new_block law (block - 7 - 512) s v
                  (λ z. nz (sym (ap (λ q. q.0) p) ∙ z))) in
              rw (h, a, b, bmap_in, found) refl
        ]
      ]
    ]
