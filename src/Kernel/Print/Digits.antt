-- ===== src/Kernel/Print/Digits.antt =====
-- The digits that `number` prints, read back.
use native.Mathlib.Nat.{mod-lt, mul_comm}
use native.Mathlib.Omega.{div_any}
use linux_0_11_read.Prelude.{
  ℕ, zero, suc, ◌+◌, ◌-◌, ◌*◌, ◌/◌, ◌%◌, ◌^◌, ◌≤◌, ◌<◌, ◌≡◌, ◌∙◌, ap, List, [], ◌∷◌, Bool, true,
  false, ◌&&◌, some, neg32, is_neg, sub32, ltb, ◌==◌, if◌then◌else◌, length, arith, Bool-cases, inl,
  inr,
}
use linux_0_11_read.Kernel.Print.{Flags, digit, divide, tmp_digits, sign_of, prefix, layout, number}

-- The value of a digit, of a capital letter or of a small one.
abbrev pub digit_value : ℕ → ℕ
digit_value c = if ltb c 58 then c - 48 else if ltb c 91 then c - 55 else c - 87

pub value : ℕ → ℕ → List ℕ → ℕ
value base i [] = i
value base i (c ∷ s) = value base (i * base + digit_value c) s

digit_value-digit : (small : Bool) (d : ℕ) → d < 36 → digit_value (digit small d) ≡ d
digit_value-digit true d h = ground arith
digit_value-digit false d h = ground arith

-- A quotient by 2 or more is at most half.
half : (base num n : ℕ) → 2 ≤ base → num < 2 ^ suc n → num / base < 2 ^ n
half base num n two h = grind (arith, div_any num base)

pub divide-value :
    (n : ℕ) (small : Bool) (base num : ℕ) (tmp : List ℕ)
    → 2 ≤ base
    → base ≤ 36
    → num < 2 ^ n
    → (out : List ℕ) × (divide n small base num tmp ≡ some out)
      × (length out ≤ n + length tmp)
      × (value base 0 out ≡ value base num tmp)
unfolding divide value
divide-value zero small base num tmp two le h = (tmp, ground arith, omega arith, ground arith)
divide-value (suc n) small base num tmp two le h = elim (Bool-cases (num == 0)) [
  | inl z ↦ (tmp, ground (arith, z), omega arith, ground (arith, z))
  | inr nz ↦
      let (out, e, l, v) =
        divide-value n small base (num / base) (digit small (num % base) ∷ tmp) two le
          (half base num n two h) in
      (out, rw (nz) e, omega (arith, l), v ∙ ap (λ i. value base i tmp) (digits_join))
]
  where
    digits_join : num / base * base + digit_value (digit small (num % base)) ≡ num
    digits_join =
        ap (λ d. num / base * base + d)
          (digit_value-digit small (num % base)
            (omega (arith, mod-lt num {m = base} (omega (arith, two)), le)))
        ∙ ap (λ x. x + num % base) (mul_comm (num / base) base)
        ∙ div_any num base

pub tmp_digits-value :
    (small : Bool) (base num : ℕ)
    → 2 ≤ base
    → base ≤ 36
    → num < 2 ^ 32
    → (tmp : List ℕ) × (tmp_digits small base num ≡ some tmp)
      × (length tmp ≤ 32)
      × (value base 0 tmp ≡ num)
unfolding tmp_digits value
tmp_digits-value small base num two le h = elim (Bool-cases (num == 0)) [
  | inl z ↦ (48 ∷ [], ground (arith, z), omega arith, ground (arith, z))
  | inr nz ↦
      let (tmp, e, l, v) = divide-value 32 small base num [] two le h in
      (tmp, rw nz e, omega (arith, l), v)
]

-- The number whose digits are printed: `-num` of a negative one under SIGN.
abbrev pub magnitude : Flags → ℕ → ℕ
magnitude type num = if type.sign && is_neg num then neg32 num else num

-- number of a word in a base from 2 to 36 prints, for all flags, sizes and precisions, at most 32
-- digits, and their value is that of the number, without its sign under SIGN.
pub number-value :
    (num base size precision : ℕ) (type : Flags)
    → num < 2 ^ 32
    → 2 ≤ base
    → base ≤ 36
    → let sign = sign_of type num in
      let front = prefix type base in
      (tmp : List ℕ) × (tmp_digits type.small base (magnitude type num) ≡ some tmp)
      × (number num base size precision type
          ≡ some (
              layout type
                (sub32 (sub32 size (length sign)) (length front))
                precision
                sign
                front
                tmp))
      × (length tmp ≤ 32)
      × (value base 0 tmp ≡ magnitude type num)
unfolding number
number-value num base size precision type h two le =
    let (tmp, e, l, v) =
      tmp_digits-value type.small base (magnitude type num) two le small_enough in
    (tmp, e, ground (arith, e, two, le), l, v)
  where
    small_enough : magnitude type num < 2 ^ 32
    small_enough = ground (arith, h)
