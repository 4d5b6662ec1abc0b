-- ===== src/Kernel/Print/Tests.antt =====
-- Numbers printed and read back.
use linux_0_11_read.Prelude.{ℕ, ◌^◌, ◌-◌, ◌≡◌, refl, List, [], ◌∷◌, ◌++◌, some, true, false, arith}
use linux_0_11_read.Kernel.Print.{Flags, skip_atoi, divide, tmp_digits, padding, layout, number}
use linux_0_11_read.Kernel.Print.ReadBack.{plain, not_given, skip_atoi-number}

abbrev signed : Flags
signed = record (plain false) { sign = true }

abbrev minus_42 : ℕ
minus_42 = 2 ^ 32 - 42

-- "  -042" for a size of 6 and a precision of 3
minus_42_printed : number minus_42 10 6 3 signed ≡ some (32 ∷ 32 ∷ 45 ∷ 48 ∷ 52 ∷ 50 ∷ [])
unfolding number layout padding tmp_digits divide
minus_42_printed = refl

-- "0x00ff" with ZEROPAD, SPECIAL and SMALL
padded_hex :
    number 255 16 6
      (2 ^ 32 - 1)
      (record (plain false) { zeropad = true; special = true; small = true })
    ≡ some (48 ∷ 120 ∷ 48 ∷ 48 ∷ 102 ∷ 102 ∷ [])
unfolding number layout padding tmp_digits divide
padded_hex = refl

skip_atoi-number_example :
    (out : List ℕ) × (number 1991 10 not_given not_given (plain true) ≡ some out)
    × (skip_atoi 0 (out ++ 46 ∷ []) ≡ (1991, 46 ∷ []))
skip_atoi-number_example = skip_atoi-number true 1991 46 [] (omega arith) refl refl
