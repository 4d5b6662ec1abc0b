-- ===== src/Fs/Regular/Bytes.antt =====
-- The bytes of a file, one by one, as its zones say; file_read gives them.
use linux_0_11_read.Prelude.{
  ℕ, zero, suc, ◌+◌, ◌-◌, ◌*◌, ◌/◌, ◌%◌, ◌^◌, ◌<◌, ◌≤◌, ◌≡◌, ◌≢◌, refl, sym, ap, ◌∙◌, inl, inr,
  List, [], ◌∷◌, ◌++◌, append-nil, append_assoc, add-zero, Bool, true, false, not, ◌&&◌, ◌||◌, ◌==◌,
  ltb, leb, slt, if◌then◌else◌, arith, Bool-cases, add32, is_neg, replicate, done, halted, min,
}
use linux_0_11_read.Fs.Inode.{
  Store, Mapped, zone_at, zone_made, direct, single_indirect, double_indirect, indirect, bmap_in,
  bmap,
}
use linux_0_11_read.Fs.Regular.{Io, bytes_from, file_read_loop, file_read, accessed}

module _ (now : ℕ) (readable : ℕ → ℕ → Bool) (new_block : ℕ → Store → ℕ × Store) where
  -- The zone of a block of a file.
  unfoldable pub zone_of : Mapped → ℕ → ℕ
  zone_of m block = elim (bmap now readable new_block block m) [ done nr t ↦ nr | halted h t ↦ 0 ]

  -- The byte at a position: 0 where the file has no zone.
  unfoldable pub file_byte : Mapped → ℕ → ℕ
  file_byte m pos =
      let nr = zone_of m (pos / 1024) in
      if nr == 0 then 0 else m.store.byte m.inode.i_dev nr (pos % 1024)

  unfoldable pub file_bytes : Mapped → ℕ → ℕ → List ℕ
  file_bytes m pos zero = []
  file_bytes m pos (suc n) = file_byte m pos ∷ file_bytes m (pos + 1) n

  file_bytes_add :
      (m : Mapped) (pos a b : ℕ)
      → file_bytes m pos (a + b) ≡ file_bytes m pos a ++ file_bytes m (pos + a) b
  unfolding file_bytes
  file_bytes_add m pos zero b = rw (front, add-zero pos) refl
    where
      front : 0 + b ≡ b
      front = omega arith
  file_bytes_add m pos (suc a) b = rw (front, file_bytes_add m (pos + 1) a b, shift) refl
    where
      front : suc a + b ≡ suc (a + b)
      front = omega arith

      shift : pos + 1 + a ≡ pos + suc a
      shift = omega arith

  indirect-same :
      (dev b i : ℕ) (s : Store) → (indirect now readable new_block false dev b i s).1 ≡ s
  unfolding indirect
  indirect-same dev b i s = elim (Bool-cases (readable dev b)) [
    | inl r ↦ rw (r, indirect) refl
    | inr r ↦ rw (r, indirect) refl
  ]

  single_indirect-same :
      (k : ℕ) (m : Mapped) → (single_indirect now readable new_block false k m).1 ≡ m
  unfolding single_indirect zone_made
  single_indirect-same k m = elim (Bool-cases (zone_at m.inode 7 == 0)) [
    | inl z ↦ rw (z, single_indirect) refl
    | inr z ↦ rw (z, single_indirect, indirect-same) refl
  ]

  double_indirect-same :
      (k : ℕ) (m : Mapped) → (double_indirect now readable new_block false k m).1 ≡ m
  unfolding double_indirect zone_made
  double_indirect-same k m = elim (Bool-cases (zone_at m.inode 8 == 0)) [
    | inl z ↦ rw (z, double_indirect) refl
    | inr z ↦
        elim (Bool-cases (
          (indirect now readable new_block false m.inode.i_dev (zone_at m.inode 8) (k / 512)
            m.store).0
          == 0)) [
            | inl i ↦ rw (z, double_indirect, i, indirect-same) refl
            | inr i ↦ rw (z, double_indirect, i, indirect-same, indirect-same) refl
          ]
  ]

  -- bmap stops for no block that a file can have, and changes nothing.
  bmap-zone_of :
      (m : Mapped) (block : ℕ)
      → block < 7 + 512 + 512 * 512
      → bmap now readable new_block block m ≡ done (zone_of m block) m
  unfolding zone_of bmap_in zone_made direct
  bmap-zone_of m block h = elim (Bool-cases (ltb block 7)) [
    | inl a ↦ rw (guard, a, zone_of, bmap_in) refl
    | inr a ↦ elim (Bool-cases (ltb (block - 7) 512)) [
      | inl b ↦ rw (guard, a, b, zone_of, bmap_in, single_indirect-same) refl
      | inr b ↦ rw (guard, a, b, zone_of, bmap_in, double_indirect-same) refl
    ]
  ]
    where
      guard : (is_neg block || leb (7 + 512 + 512 * 512) block) ≡ false
      guard = ground (arith, h)

  -- The bytes of the block q from r on.
  block_bytes : Mapped → ℕ → ℕ → ℕ → List ℕ
  block_bytes m q r n =
      if zone_of m q == 0 then replicate n 0 else bytes_from m.store m.inode.i_dev (zone_of m q) r n

  file_bytes-block_bytes :
      (m : Mapped) (q r n : ℕ) → r + n ≤ 1024 → file_bytes m (1024 * q + r) n ≡ block_bytes m q r n
  unfolding file_bytes file_byte bytes_from block_bytes
  file_bytes-block_bytes m q r zero h = elim (Bool-cases (zone_of m q == 0)) [
    | inl z ↦ rw z refl
    | inr z ↦ rw z refl
  ]
  file_bytes-block_bytes m q r (suc n) h =
      let ih = file_bytes-block_bytes m q (r + 1) n (omega (arith, h)) in
      elim (Bool-cases (zone_of m q == 0)) [
        | inl z ↦ rw (here, z) (ap (λ l. 0 ∷ l) (rw (next, z, block_bytes) at ih))
        | inr z ↦
            rw (here, there, z)
              (ap (λ l. m.store.byte m.inode.i_dev (zone_of m q) r ∷ l)
                (rw (next, z, block_bytes) at ih))
      ]
    where
      here : (1024 * q + r) / 1024 ≡ q
      here = omega (arith, h)

      there : (1024 * q + r) % 1024 ≡ r
      there = omega (arith, h)

      next : 1024 * q + (r + 1) ≡ 1024 * q + r + 1
      next = omega arith

  chunk :
      (m : Mapped) (pos n : ℕ)
      → pos % 1024 + n ≤ 1024
      → file_bytes m pos n ≡ block_bytes m (pos / 1024) (pos % 1024) n
  chunk m pos n h = rw split at (file_bytes-block_bytes m (pos / 1024) (pos % 1024) n h)
    where
      split : 1024 * (pos / 1024) + pos % 1024 ≡ pos
      split = omega arith

  -- What a file needs for its bytes to be read.
  abbrev pub IsReadable : Mapped → Type 0
  IsReadable m = (block : ℕ) → zone_of m block ≢ 0 → readable m.inode.i_dev (zone_of m block) ≡ true

  round :
      (n left : ℕ) (got : List ℕ) (s : Io)
      → IsReadable s.mapped
      → s.f_pos + suc left ≤ 1024 * (7 + 512 + 512 * 512)
      → file_read_loop now readable new_block (suc n) (suc left) got s
        ≡ file_read_loop now readable new_block n
            (suc left - min (1024 - s.f_pos % 1024) (suc left))
            (got ++ file_bytes s.mapped s.f_pos (min (1024 - s.f_pos % 1024) (suc left)))
            (record s { f_pos = s.f_pos + min (1024 - s.f_pos % 1024) (suc left) })
  unfolding file_read_loop block_bytes
  round n left got s ok fit =
      rw (file_read_loop, some_left, found, whole, small, chunk s.mapped s.f_pos c (omega arith))
        refl
    where
      c : ℕ
      c = min (1024 - s.f_pos % 1024) (suc left)

      found :
          bmap now readable new_block (s.f_pos / 1024) s.mapped
          ≡ done (zone_of s.mapped (s.f_pos / 1024)) s.mapped
      found = bmap-zone_of s.mapped (s.f_pos / 1024) (omega (arith, fit))

      whole :
          (not (zone_of s.mapped (s.f_pos / 1024) == 0)
            && not (readable s.mapped.inode.i_dev (zone_of s.mapped (s.f_pos / 1024))))
          ≡ false
      whole = elim (Bool-cases (zone_of s.mapped (s.f_pos / 1024) == 0)) [
        | inl z ↦ rw z refl
        | inr z ↦ rw (z, ok (s.f_pos / 1024) (ground (arith, z))) refl
      ]

      some_left : (suc left == 0) ≡ false
      some_left = ground arith

      small : add32 s.f_pos c ≡ s.f_pos + c
      small = omega (arith, fit)

  file_read_loop-bytes :
      (n left : ℕ) (got : List ℕ) (s : Io)
      → IsReadable s.mapped
      → left < n
      → s.f_pos + left ≤ 1024 * (7 + 512 + 512 * 512)
      → file_read_loop now readable new_block n left got s
        ≡ done (0, got ++ file_bytes s.mapped s.f_pos left) (record s { f_pos = s.f_pos + left })
  unfolding file_read_loop file_bytes
  file_read_loop-bytes zero left got s ok h fit = absurd (omega (arith, h))
  file_read_loop-bytes (suc n) zero got s ok h fit =
      rw (file_read_loop, append-nil got, add-zero s.f_pos) refl
  file_read_loop-bytes (suc n) (suc left) got s ok h fit =
      let ih =
        file_read_loop-bytes n (suc left - c) (got ++ file_bytes s.mapped s.f_pos c)
          (record s { f_pos = s.f_pos + c }) ok (omega (arith, h)) (omega (arith, fit)) in
      round n left got s ok fit
      ∙ (rw
          (
            append_assoc got (file_bytes s.mapped s.f_pos c)
                (file_bytes s.mapped (s.f_pos + c) (suc left - c)),
            sym (file_bytes_add s.mapped s.f_pos c (suc left - c)),
            all,
            end,
          )
          at ih)
    where
      c : ℕ
      c = min (1024 - s.f_pos % 1024) (suc left)

      all : c + (suc left - c) ≡ suc left
      all = omega arith

      end : s.f_pos + c + (suc left - c) ≡ s.f_pos + suc left
      end = omega arith

-- file_read of more than 0 and fewer than 2^31 bytes, which end below the greatest size of a file,
-- returns their number and the bytes that the file has at the positions from f_pos on, each found
-- by itself through its zone and 0 in a hole, and moves f_pos behind them, when every block of the
-- file can be read.
pub file_read-file_bytes :
    (now : ℕ) (readable : ℕ → ℕ → Bool) (new_block : ℕ → Store → ℕ × Store) (count : ℕ) (s : Io)
    → IsReadable now readable new_block s.mapped
    → 0 < count
    → count < 2 ^ 31
    → s.f_pos + count ≤ 1024 * (7 + 512 + 512 * 512)
    → file_read now readable new_block count s
      ≡ done
          (count, file_bytes now readable new_block s.mapped s.f_pos count)
          (accessed now (record s { f_pos = s.f_pos + count }))
unfolding file_read
file_read-file_bytes now readable new_block count s ok some_count h fit =
    rw
      (
        file_read,
        positive,
        file_read_loop-bytes now readable new_block (suc count) count [] s ok (omega arith) fit,
        whole,
        read_some,
      )
      refl
  where
    positive : not (slt 0 count) ≡ false
    positive = ground (arith, some_count, h)

    whole : count - 0 ≡ count
    whole = omega arith

    read_some : (count == 0) ≡ false
    read_some = ground (arith, some_count)
