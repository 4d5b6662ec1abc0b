-- ===== src/Kernel/Print/ReadBack.antt =====
-- `skip_atoi` on what `number` prints in base 10.
use linux_0_11_read.Prelude.{
  ℕ, zero, suc, ◌/◌, ◌%◌, ◌^◌, ◌≤◌, ◌<◌, ◌≡◌, ◌∙◌, refl, List, [], ◌∷◌, ◌++◌, append-nil, Bool,
  true, false, some, add32, mul32, sub32, ◌==◌, length, arith, Bool-cases, inl, inr, ◌&&◌, neg32,
  is_neg,
}
use linux_0_11_read.Kernel.Print.{
  Flags, is_digit, skip_atoi, digit, divide, tmp_digits, padding, layout, number, sign_of,
}
use linux_0_11_read.Kernel.Print.Digits.{tmp_digits-value}

-- One more digit, at the end of the number that is already read.
skip_atoi-digit :
    (small : Bool) (num : ℕ) (s : List ℕ)
    → num < 2 ^ 32
    → skip_atoi (num / 10) (digit small (num % 10) ∷ s) ≡ skip_atoi num s
unfolding skip_atoi
skip_atoi-digit small num s h = rw (is_a_digit, joined) refl
  where
    is_a_digit : is_digit (digit small (num % 10)) ≡ true
    is_a_digit = ground arith

    joined : sub32 (add32 (mul32 (num / 10) 10) (digit small (num % 10))) 48 ≡ num
    joined = ground (arith, h)

skip_atoi-divide :
    (n : ℕ) (small : Bool) (num : ℕ) (tmp out rest : List ℕ)
    → num < 2 ^ 32
    → divide n small 10 num tmp ≡ some out
    → skip_atoi 0 (out ++ rest) ≡ skip_atoi num (tmp ++ rest)
unfolding divide
skip_atoi-divide zero small num tmp out rest h e = elim (Bool-cases (num == 0)) [
  | inl z ↦ ground (arith, z, rw z at e)
  | inr nz ↦ absurd (ground (arith, rw nz at e))
]
skip_atoi-divide (suc n) small num tmp out rest h e = elim (Bool-cases (num == 0)) [
  | inl z ↦ ground (arith, z, rw z at e)
  | inr nz ↦
      skip_atoi-divide n small (num / 10) (digit small (num % 10) ∷ tmp) out rest (omega arith)
        (rw nz at e)
      ∙ skip_atoi-digit small num (tmp ++ rest) h
]

skip_atoi-stop : (i c : ℕ) (s : List ℕ) → is_digit c ≡ false → skip_atoi i (c ∷ s) ≡ (i, c ∷ s)
unfolding skip_atoi
skip_atoi-stop i c s h = rw h refl

skip_atoi-tmp_digits :
    (small : Bool) (num : ℕ) (tmp rest : List ℕ)
    → num < 2 ^ 32
    → tmp_digits small 10 num ≡ some tmp
    → skip_atoi 0 (tmp ++ rest) ≡ skip_atoi num rest
unfolding tmp_digits
skip_atoi-tmp_digits small num tmp rest h e = elim (Bool-cases (num == 0)) [
  | inl z ↦ ground (arith, z, rw z at e, skip_atoi-digit small 0 rest)
  | inr nz ↦ skip_atoi-divide 32 small num [] tmp rest h (rw nz at e)
]

-- `"%d"`, with SIGN, or `"%u"`, without flags
abbrev pub plain : Bool → Flags
plain sign = record {
  zeropad = false;
  sign = sign;
  plus = false;
  space = false;
  left = false;
  special = false;
  small = false;
}

-- The width and the precision that vsprintf passes when the format has none.
abbrev pub not_given : ℕ
not_given = neg32 1

layout-plain :
    (sign : Bool) (tmp : List ℕ)
    → length tmp ≤ 32
    → layout (plain sign) not_given not_given [] [] tmp ≡ tmp
unfolding layout padding
layout-plain sign tmp h = ground (arith, h, append-nil tmp)

no_sign : (sign : Bool) (num : ℕ) → (sign && is_neg num) ≡ false → sign_of (plain sign) num ≡ []
no_sign sign num h = rw h refl

-- skip_atoi reads a word that number printed in base 10 with no width, no precision and no flags
-- but SIGN for a word that is not negative, as for a plain %u or %d, and stops at the character
-- behind it, which is not a digit.
pub skip_atoi-number :
    (sign : Bool) (num c : ℕ) (s : List ℕ)
    → num < 2 ^ 32
    → (sign && is_neg num) ≡ false
    → is_digit c ≡ false
    → (out : List ℕ) × (number num 10 not_given not_given (plain sign) ≡ some out)
      × (skip_atoi 0 (out ++ c ∷ s) ≡ (num, c ∷ s))
unfolding number
skip_atoi-number sign num c s h positive stop =
    let (tmp, e, l, _) = tmp_digits-value false 10 num (omega arith) (omega arith) h in
    (
      tmp,
      ground (arith, e, positive, no_sign sign num positive, layout-plain sign tmp l),
      skip_atoi-tmp_digits false num tmp (c ∷ s) h e ∙ skip_atoi-stop num c s stop,
    )
