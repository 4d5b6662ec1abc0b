-- ===== src/Fs/Bitmap/Zones.antt =====
-- The zones that `new_block` gives out and `free_block` takes back.
use linux_0_11_read.Prelude.{
  ℕ, ◌+◌, ◌-◌, ◌*◌, ◌/◌, ◌%◌, ◌^◌, ◌≤◌, ◌<◌, ◌≡◌, ◌≢◌, ◌⊎◌, inl, inr, refl, sym, ◌∙◌, none, some,
  Bool, true, false, ◌||◌, ◌==◌, ltb, leb, if◌then◌else◌, add32, sub32, arith, Bool-cases,
  Option-cases, set, get_or-set_self, Outcome, done,
}
use linux_0_11_read.Fs.Bitmap.{
  Cache, MapBlock, Super, Disk, map_block, mark, find_block, put_super, clear_zone, free_block,
  fetch_block, new_block,
}
use linux_0_11_read.Fs.Bitmap.Bits.{bit_at, map_block-lt, bit_at-some, bit_at-eq, bit_at-set}
use linux_0_11_read.Fs.Bitmap.Zero.{Found, find_block-Found}

-- Whether a zone is in use.
abbrev pub is_used : Super → ℕ → Bool
is_used sb block = bit_at sb.s_zmap (block + 1 - sb.s_firstdatazone)

-- `new_block` gave the zone `block`: it was free and is in use, and no other zone has changed.
pub record Allocated {C : Type 0} (s : Disk C) (dev : ℕ) (sb : Super) (block : ℕ) (t : Disk C)
    : Type 0 where
  pub from : sb.s_firstdatazone ≤ block
  pub to : block < sb.s_nzones
  pub was_free : is_used sb block ≡ false
  pub sb' : Super
  pub now : t.super dev ≡ some sb'
  pub changed :
      (z : ℕ) → sb.s_firstdatazone ≤ z → is_used sb' z ≡ (if z == block then true else is_used sb z)
  pub others : (d : ℕ) → d ≢ dev → t.super d ≡ s.super d
  pub same_zones : (sb'.s_firstdatazone ≡ sb.s_firstdatazone) × (sb'.s_nzones ≡ sb.s_nzones)
  pub present :
      (b : MapBlock) × (map_block sb'.s_zmap ((block + 1 - sb.s_firstdatazone) / 8192) ≡ some b)

-- The super block of a device as `new_block` finds it: the bit before the first zone is set.
pub record IsSuper (sb : Super) : Type 0 where
  pub zones : sb.s_nzones < 2 ^ 16
  pub first_zone : (0 < sb.s_firstdatazone) × (sb.s_firstdatazone < 2 ^ 16)
  pub bit_0 : bit_at sb.s_zmap 0 ≡ true

module _ {C : Type 0} (ops : Cache C) (dev : ℕ) (s : Disk C) (sb : Super) (v : IsSuper sb) where
  -- The state with bit `j` of block `i` of the map set.
  abbrev taken : MapBlock → ℕ → ℕ → Disk C
  taken b i j = put_super ops s dev (record sb { s_zmap = set sb.s_zmap i (some (mark b j true)) })

  abbrev zone : ℕ → ℕ → ℕ
  zone i j = add32 j (sub32 (i * 8192 + sb.s_firstdatazone) 1)

  taken-Allocated :
      (b : MapBlock) (i j : ℕ) (cache : C)
      → i < 8
      → Found sb.s_zmap b i j
      → zone i j < sb.s_nzones
      → Allocated s dev sb (zone i j) (record (taken b i j) { cache = cache })
  taken-Allocated b i j cache h f in_range = record {
    from = omega (arith, where_is, not_0);
    to = in_range;
    was_free = rw (in_map) free;
    sb' = record sb { s_zmap = set sb.s_zmap i (some (mark b j true)) };
    now = ground arith;
    changed = λ z a.
        bit_at-set sb.s_zmap i j true b (z + 1 - sb.s_firstdatazone) f.first.to f.there
        ∙ ground (arith, a, where_is, not_0);
    others = λ d ne. ground (arith, ne);
    same_zones = (refl, refl);
    present = (
      mark b j true,
      rw (in_map, quotient)
          (get_or-set_self sb.s_zmap i (some (mark b j true)) none
            (map_block-lt sb.s_zmap i f.there)),
    );
  }
    where
      where_is : zone i j + 1 ≡ i * 8192 + j + sb.s_firstdatazone
      where_is = omega (arith, f.first.to, h, v.first_zone)

      in_map : zone i j + 1 - sb.s_firstdatazone ≡ i * 8192 + j
      in_map = omega (arith, where_is)

      quotient : (i * 8192 + j) / 8192 ≡ i
      quotient = omega (arith, f.first.to)

      free : bit_at sb.s_zmap (i * 8192 + j) ≡ false
      free = bit_at-eq sb.s_zmap i j b f.first.to f.there ∙ f.first.is_clear

      not_0 : i * 8192 + j ≢ 0
      not_0 e = absurd (ground (arith, rw e at free, v.bit_0))

done-injective :
    {S A : Type 0} {a b : A} {s t : S}
    → ◌≡◌ {A = Outcome S A} (done a s) (done b t)
    → (a ≡ b) × (s ≡ t)
done-injective e = (cc, cc)

-- The buffer for the block, which leaves the map as it is.
fetch_block-inv :
    {C : Type 0} (ops : Cache C) (dev j : ℕ) (s : Disk C) {block : ℕ} {t : Disk C}
    → fetch_block ops dev j s ≡ done block t
    → (block ≡ j) × (cache : C) × (t ≡ record s { cache = cache })
fetch_block-inv ops dev j s returned =
    let (bh, cache) = ops.getblk dev j s.cache in
    elim (Option-cases bh) [
      | inl lost ↦ absurd (ground (arith, rw (lost, fetch_block) at returned))
      | inr (h, got) ↦ elim (Bool-cases (ops.b_count cache h == 1)) [
        | inr busy ↦ absurd (ground (arith, rw (got, busy, fetch_block) at returned))
        | inl one ↦
            let (number, state) = done-injective (rw (got, one, fetch_block) at returned) in
            (sym number, ops.release h (ops.clear h cache), sym state)
      ]
    ]

-- When bit 0 of the zone map is set and zone numbers have 16 bits, a new_block that returns a
-- block returns one in the data zone of the device that was free; it is in use then, and no other
-- zone and no other device has changed.
pub new_block-Allocated :
    {C : Type 0} (ops : Cache C) (dev : ℕ) (s : Disk C) (sb : Super) {block : ℕ} {t : Disk C}
    → s.super dev ≡ some sb
    → IsSuper sb
    → new_block ops dev s ≡ done block t
    → block ≢ 0
    → Allocated s dev sb block t
unfolding new_block
new_block-Allocated ops dev s sb {block} {t} e v returned ne =
    elim (Option-cases (find_block sb.s_zmap 8 0)) [
      | inl full ↦ absurd (ne (ground (arith, rw (e, full, new_block) at returned)))
      | inr ((b, i, j), hit) ↦
          let (_, below, f) = find_block-Found sb.s_zmap 8 0 hit in
          let clear : b.bits j ≡ false = f.first.is_clear in
          elim (Bool-cases (leb sb.s_nzones (zone ops dev s sb v i j))) [
            | inl beyond ↦
                absurd (ne (ground (arith, rw (e, hit, clear, beyond, new_block) at returned)))
            | inr inside ↦
                let (number, cache, state) =
                  fetch_block-inv ops dev (zone ops dev s sb v i j) (taken ops dev s sb v b i j)
                    (rw (e, hit, clear, inside, new_block) at returned) in
                rw (number, state)
                  (taken-Allocated ops dev s sb v b i j cache (omega (arith, below)) f
                    (ground (arith, inside)))
          ]
    ]

-- Nobody else uses the buffer of the block, if it has one.
abbrev pub IsUnshared : {C : Type 0} → Cache C → ℕ → ℕ → C → Type 0
IsUnshared ops dev block c =
    let (bh, cache) = ops.get_hash_table dev block c in
    (bh ≡ none) ⊎ ((h : ℕ) × (bh ≡ some h) × (ops.b_count cache h ≡ 1))

-- The zones as they were before.
pub record Restored {C : Type 0} (dev : ℕ) (sb : Super) (u : Disk C) : Type 0 where
  pub sb' : Super
  pub now : u.super dev ≡ some sb'
  pub same : (z : ℕ) → sb.s_firstdatazone ≤ z → is_used sb' z ≡ is_used sb z

module _ {C : Type 0} (ops : Cache C) (dev : ℕ) (s : Disk C) (sb : Super) (v : IsSuper sb)
    {block : ℕ} {t : Disk C} (a : Allocated s dev sb block t) where
  abbrev bit : ℕ
  bit = block + 1 - sb.s_firstdatazone

  bit_of : sub32 block (sub32 a.sb'.s_firstdatazone 1) ≡ bit
  bit_of = omega (arith, a.same_zones, a.from, a.to, v.zones, v.first_zone)

  zone_used : bit_at a.sb'.s_zmap bit ≡ true
  zone_used = rw⁻¹ a.same_zones.0 (a.changed block a.from ∙ ground arith)

  abbrev cleared_super : MapBlock → Super
  cleared_super b = record a.sb' {
    s_zmap = set a.sb'.s_zmap (bit / 8192) (some (mark b (bit % 8192) false));
  }

  cleared :
      (cache : C)
      → (u : Disk C) × (clear_zone ops dev a.sb' bit (record t { cache = cache }) ≡ done tt u)
        × Restored dev sb u
  cleared cache =
      let (b, e) = a.present in
      let bit_on : b.bits (bit % 8192) ≡ true = sym (bit_at-some a.sb'.s_zmap bit e) ∙ zone_used in
      (
        put_super ops (record t { cache = cache }) dev (cleared_super b),
        rw (e, bit_on, clear_zone) refl,
        record {
          sb' = cleared_super b;
          now = ground arith;
          same = λ z from.
              bit_at-set a.sb'.s_zmap (bit / 8192) (bit % 8192) false b
                (z + 1 - a.sb'.s_firstdatazone) (omega arith) e
              ∙ ground (arith, a.same_zones.0, a.changed z from, a.was_free, from, a.from);
        },
      )

  in_zones : (ltb block a.sb'.s_firstdatazone || leb a.sb'.s_nzones block) ≡ false
  in_zones = ground (arith, a.same_zones, a.from, a.to)

  free_block-Restored :
      IsUnshared ops dev block t.cache
      → (u : Disk C) × (free_block ops dev block t ≡ done tt u) × Restored dev sb u
  unfolding free_block
  free_block-Restored (inl none_there) =
      let (u, e, r) = cleared (ops.get_hash_table dev block t.cache).1 in
      (u, rw (a.now, in_zones, none_there, bit_of, free_block) e, r)
  free_block-Restored (inr (h, there, one)) =
      let c = (ops.get_hash_table dev block t.cache).1 in
      let (u, e, r) = cleared (ops.release h (ops.forget h c)) in
      let alone : (ops.b_count c h == 1) ≡ true = ground (arith, one) in
      (u, rw (a.now, in_zones, there, alone, bit_of, free_block) e, r)

-- A block that new_block returned, when bit 0 of the zone map is set and zone numbers have 16
-- bits, can be freed as long as nobody else uses its buffer, and the zones in use are then the
-- same as before.
pub free_block-new_block :
    {C : Type 0} (ops : Cache C) (dev : ℕ) (s : Disk C) (sb : Super) {block : ℕ} {t : Disk C}
    → s.super dev ≡ some sb
    → IsSuper sb
    → new_block ops dev s ≡ done block t
    → block ≢ 0
    → IsUnshared ops dev block t.cache
    → (u : Disk C) × (free_block ops dev block t ≡ done tt u) × Restored dev sb u
free_block-new_block ops dev s sb e v returned ne alone =
    free_block-Restored ops dev s sb v (new_block-Allocated ops dev s sb e v returned ne) alone
