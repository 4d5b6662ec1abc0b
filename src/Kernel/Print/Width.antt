-- ===== src/Kernel/Print/Width.antt =====
-- How wide `number` prints.
use linux_0_11_read.Prelude.{
  ℕ, ◌+◌, ◌-◌, ◌^◌, ◌≢◌, ◌≤◌, ◌<◌, ◌≡◌, ◌∙◌, refl, List, [], ◌++◌, Bool, true, false, not, ◌&&◌,
  some, sub32, slt, ltb, if◌then◌else◌, length, length-append, length-replicate, replicate, arith,
  Bool-cases, inl, inr,
}
use linux_0_11_read.Kernel.Print.{Flags, sign_of, prefix, pad, padding, layout, tmp_digits, number}
use linux_0_11_read.Kernel.Print.Digits.{magnitude, number-value}

-- The larger of two numbers.
abbrev pub larger : ℕ → ℕ → ℕ
larger a b = if ltb a b then b else a

length_parts :
    (a b c d e f g : List ℕ)
    → length (a ++ b ++ c ++ d ++ e ++ f ++ g)
      ≡ length a + length b + length c + length d + length e + length f + length g
length_parts a b c d e f g = omega (
  arith,
  length-append a b,
  length-append (a ++ b) c,
  length-append (a ++ b ++ c) d,
  length-append (a ++ b ++ c ++ d) e,
  length-append (a ++ b ++ c ++ d ++ e) f,
  length-append (a ++ b ++ c ++ d ++ e ++ f) g,
)

-- One padding loop: how much it prints, and that a loop after it prints nothing.
pad-length :
    (c r : ℕ)
    → r < 2 ^ 32
    → r ≢ 2 ^ 31
    → (length (pad c r).0 ≡ (if ltb r (2 ^ 31) then r else 0)) × (slt 0 (pad c r).1 ≡ false)
pad-length c r h ne = elim (Bool-cases (slt 0 r)) [
  | inl q ↦ rw q (length-replicate r c ∙ ground (arith, q), ground arith)
  | inr q ↦ rw q (ground (arith, q), ground (arith, q, ne))
]

-- A loop with `size` at 0 or below.
pad-none : (c r : ℕ) → slt 0 r ≡ false → (pad c r).0 ≡ []
pad-none c r h = rw h refl

-- The first loop that runs prints all the padding there is.
padding-length :
    (zeropad left : Bool) (r : ℕ)
    → r < 2 ^ 32
    → (2 ^ 31 ≤ r → 2 ^ 31 + 2 < r)
    → let (x, y, z) = padding zeropad left r in
      length x + length y + length z ≡ (if ltb r (2 ^ 31) then r else 0)
unfolding padding
padding-length zeropad true r h wide = ground (arith, pad-length 32 r h (ground (arith, wide)))
padding-length true false r h wide = ground (
  arith,
  pad-length 48 r h (ground (arith, wide)),
  pad-none 32 (pad 48 r).1 (pad-length 48 r h (ground (arith, wide))).1,
)
padding-length false false r h wide = ground (
  arith,
  pad-length 32 r h (ground (arith, wide)),
  pad-none 32 (pad 32 r).1 (pad-length 32 r h (ground (arith, wide))).1,
)

layout_width :
    (type : Flags) (size precision : ℕ) (sign front tmp : List ℕ)
    → size < 2 ^ 30
    → precision < 2 ^ 30
    → length sign ≤ 1
    → length front ≤ 2
    → length tmp ≤ 32
    → length
        (layout type (sub32 (sub32 size (length sign)) (length front)) precision sign front tmp)
      ≡ larger size (length sign + length front + larger precision (length tmp))
unfolding layout
layout_width type size precision sign front tmp s p a b c =
    length_parts parts.0 sign front parts.1 zeros tmp parts.2
    ∙ ground (arith, s, p, a, b, c, length-replicate {A = ℕ} (prec - length tmp) 48, total, is_prec)
  where
    prec : ℕ
    prec = if slt precision (length tmp) then length tmp else precision

    is_prec : prec ≡ larger precision (length tmp)
    is_prec = ground (arith, p, c)

    zeros : List ℕ
    zeros = replicate (prec - length tmp) 48

    r : ℕ
    r = sub32 (sub32 (sub32 size (length sign)) (length front)) prec

    parts : List ℕ × List ℕ × List ℕ
    parts = padding (type.zeropad && not type.left) type.left r

    total : length parts.0 + length parts.1 + length parts.2 ≡ (if ltb r (2 ^ 31) then r else 0)
    total =
        padding-length (type.zeropad && not type.left) type.left r (omega arith)
          (λ h. ground (arith, is_prec, s, p, a, b, c, h))

length-sign_of : (type : Flags) (num : ℕ) → length (sign_of type num) ≤ 1
length-sign_of type num = ground arith

length-prefix : (type : Flags) (base : ℕ) → length (prefix type base) ≤ 2
length-prefix type base = ground arith

-- number of a word in a base from 2 to 36 prints size characters, or as many as the sign, the
-- prefix and the digits take if those are more, where the digits are precision or as many as the
-- number has, if those are more; size and precision are below 2^30.
pub number_width :
    (num base size precision : ℕ) (type : Flags)
    → num < 2 ^ 32
    → 2 ≤ base
    → base ≤ 36
    → size < 2 ^ 30
    → precision < 2 ^ 30
    → (tmp out : List ℕ) × (tmp_digits type.small base (magnitude type num) ≡ some tmp)
      × (number num base size precision type ≡ some out)
      × (length out
          ≡ larger size (
              length (sign_of type num)
              + length (prefix type base)
              + larger precision (length tmp)))
number_width num base size precision type h two le s p =
    let (tmp, t, e, l, _) = number-value num base size precision type h two le in
    (
      tmp,
      _,
      t,
      e,
      layout_width type size precision (sign_of type num) (prefix type base) tmp s p
          (length-sign_of type num) (length-prefix type base) l,
    )
