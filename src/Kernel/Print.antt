-- ===== src/Kernel/Print.antt =====
-- kernel/vsprintf.c: `skip_atoi` and `number`. A character is its code, and a string the list of its
-- characters.
pub mod Digits
pub mod ReadBack
pub mod Width
mod Tests
use linux_0_11_read.Prelude.{
  ℕ, zero, suc, ◌+◌, ◌-◌, ◌*◌, ◌/◌, ◌%◌, ◌^◌, List, [], ◌∷◌, ◌++◌, Bool, true, false, not, ◌&&◌,
  ◌||◌, Option, none, some, add32, sub32, mul32, neg32, is_neg, slt, leb, ltb, ◌==◌, if◌then◌else◌,
  replicate, length,
}

abbrev pub is_digit : ℕ → Bool
is_digit c = leb 48 c && leb c 57

-- The number, and the characters that are left; `i` is what has been read.
unfoldable pub skip_atoi : ℕ → List ℕ → ℕ × List ℕ
skip_atoi i [] = (i, [])
skip_atoi i (c ∷ s) =
    let rest = skip_atoi (sub32 (add32 (mul32 i 10) c) 48) s in
    if is_digit c then rest else (i, c ∷ s)

-- The bits ZEROPAD, SIGN, PLUS, SPACE, LEFT, SPECIAL and SMALL of `type`.
pub record Flags : Type 0 where
  pub zeropad : Bool
  pub sign : Bool
  pub plus : Bool
  pub space : Bool
  pub left : Bool
  pub special : Bool
  pub small : Bool

-- `digits[d]`, with the capital letters or the small ones.
abbrev pub digit : Bool → ℕ → ℕ
digit small d = if ltb d 10 then 48 + d else (if small then 97 else 65) + (d - 10)

-- `while (num!=0) tmp[i++]=digits[do_div(num,base)];` on fuel. The last place of `tmp` comes first,
-- which is the order they are printed in.
unfoldable pub divide : ℕ → Bool → ℕ → ℕ → List ℕ → Option (List ℕ)
divide zero small base num tmp = if num == 0 then some tmp else none
divide (suc fuel) small base num tmp =
    let rest = divide fuel small base (num / base) (digit small (num % base) ∷ tmp) in
    if num == 0 then some tmp else rest

-- `tmp`: a word has 32 digits at most.
unfoldable pub tmp_digits : Bool → ℕ → ℕ → Option (List ℕ)
tmp_digits small base num = if num == 0 then some (48 ∷ []) else divide 32 small base num []

-- `while(size-->0) *str++ = c;`: what it prints, and `size` then.
abbrev pub pad : ℕ → ℕ → List ℕ × ℕ
pad c size = if slt 0 size then (replicate size c, 2 ^ 32 - 1) else ([], sub32 size 1)

-- The character of `sign`, if there is one.
abbrev pub sign_of : Flags → ℕ → List ℕ
sign_of type num =
    if type.sign && is_neg num
    then 45 ∷ []
    else if type.plus
    then 43 ∷ []
    else if type.space
    then 32 ∷ []
    else []

abbrev pub prefix : Flags → ℕ → List ℕ
prefix type base =
    if not type.special
    then []
    else if base == 8
    then 48 ∷ []
    else if base == 16
    then 48 ∷ digit type.small 33 ∷ []
    else []

-- The three padding loops, for what is left of `size`. ZEROPAD is off with LEFT.
unfoldable pub padding : Bool → Bool → ℕ → List ℕ × List ℕ × List ℕ
padding zeropad left size =
    let (before, size) = if zeropad || left then ([], size) else pad 32 size in
    let (between, size) = if left then ([], size) else pad (if zeropad then 48 else 32) size in
    (before, between, (pad 32 size).0)

-- What `number` prints of a sign, a prefix and the digits, with `size` for what is left of them.
unfoldable pub layout : Flags → ℕ → ℕ → List ℕ → List ℕ → List ℕ → List ℕ
layout type size precision sign front tmp =
    let i = length tmp in
    let precision = if slt precision i then i else precision in
    let (before, between, after) =
      padding (type.zeropad && not type.left) type.left (sub32 size precision) in
    before ++ sign ++ front ++ between ++ replicate (precision - i) 48 ++ tmp ++ after

-- `none` is the 0 of a base that is out of range.
unfoldable pub number : ℕ → ℕ → ℕ → ℕ → Flags → Option (List ℕ)
number num base size precision type =
    if slt base 2 || slt 36 base
    then none
    else let sign = sign_of type num in
      let front = prefix type base in
      elim (tmp_digits type.small base (if type.sign && is_neg num then neg32 num else num)) [
        | none ↦ none
        | some tmp ↦
            some (
              layout type (sub32 (sub32 size (length sign)) (length front)) precision sign front
                tmp)
      ]
