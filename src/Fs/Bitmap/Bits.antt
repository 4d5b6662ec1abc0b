-- ===== src/Fs/Bitmap/Bits.antt =====
-- The bits of a map of several blocks.
use linux_0_11_read.Prelude.{
  ℕ, ◌+◌, ◌*◌, ◌/◌, ◌%◌, ◌<◌, ◌≡◌, refl, sym, List, Option, none, some, Bool, true, ◌==◌,
  if◌then◌else◌, arith, ℕ_discrete, dec_lt, length, set, get_or-set_self, get_or-set_ne, get_or-out,
}
use linux_0_11_read.Fs.Bitmap.{MapBlock, map_block, mark}

-- Bit `z` of a map. What has no block is in use.
unfoldable pub bit_at : List (Option MapBlock) → ℕ → Bool
bit_at m z = elim (map_block m (z / 8192)) [ none ↦ true | some b ↦ b.bits (z % 8192) ]

pub map_block-lt :
    (m : List (Option MapBlock)) (i : ℕ) {b : MapBlock} → map_block m i ≡ some b → i < length m
map_block-lt m i e = elim (dec_lt i (length m)) [
  | yes h ↦ h
  | no h ↦ absurd (ground (arith, e, get_or-out m i none (omega (arith, h))))
]

pub bit_at-some :
    (m : List (Option MapBlock)) (z : ℕ) {b : MapBlock}
    → map_block m (z / 8192) ≡ some b
    → bit_at m z ≡ b.bits (z % 8192)
unfolding bit_at
bit_at-some m z e = rw (e, bit_at) refl

pub bit_at-eq :
    (m : List (Option MapBlock)) (i j : ℕ) (b : MapBlock)
    → j < 8192
    → map_block m i ≡ some b
    → bit_at m (i * 8192 + j) ≡ b.bits j
unfolding bit_at
bit_at-eq m i j b h e =
    let quotient : (i * 8192 + j) / 8192 ≡ i = omega (arith, h) in
    let rest : (i * 8192 + j) % 8192 ≡ j = omega (arith, h) in rw (quotient, e, rest, bit_at) refl

-- One bit changed.
pub bit_at-set :
    (m : List (Option MapBlock)) (i j : ℕ) (v : Bool) (b : MapBlock) (z : ℕ)
    → j < 8192
    → map_block m i ≡ some b
    → bit_at (set m i (some (mark b j v))) z ≡ (if z == i * 8192 + j then v else bit_at m z)
unfolding bit_at
bit_at-set m i j v b z h e = elim (ℕ_discrete (z / 8192) i) [
  | yes same ↦
      rw (same, get_or-set_self m i (some (mark b j v)) none (map_block-lt m i e), e, bit_at)
        (ground (arith, same, h))
  | no ne ↦
      rw (get_or-set_ne m i (z / 8192) (some (mark b j v)) none (λ x. ne (sym x)), bit_at)
        (ground (arith, ne, h))
]
