-- ===== src/Prelude/Words.antt =====
-- 32-bit machine words: an `int`, a `long` or an address is its bit pattern, a number below 2 ^ 32.
-- Signed operations read the pattern in two's complement.
use Prim.Native.Nat.{ℕ, ◌+◌, ◌-◌, ◌*◌, ◌/◌, ◌%◌, ◌^◌}
use mathlib.Core.Bool.{Bool}
use linux_0_11_read.Prelude.Tests.{ltb, if◌then◌else◌}

abbrev pub add32 : ℕ → ℕ → ℕ
add32 a b = (a + b) % 2 ^ 32

abbrev pub sub32 : ℕ → ℕ → ℕ
sub32 a b = (a + 2 ^ 32 - b) % 2 ^ 32

abbrev pub mul32 : ℕ → ℕ → ℕ
mul32 a b = a * b % 2 ^ 32

abbrev pub neg32 : ℕ → ℕ
neg32 a = sub32 0 a

-- The bit pattern of -1.
abbrev pub minus_one : ℕ
minus_one = 2 ^ 32 - 1

abbrev pub is_neg : ℕ → Bool
is_neg a = ltb (2 ^ 31 - 1) a

-- a < b of two signed words.
abbrev pub slt : ℕ → ℕ → Bool
slt a b = ltb ((a + 2 ^ 31) % 2 ^ 32) ((b + 2 ^ 31) % 2 ^ 32)

-- Signed division and remainder round towards zero.
abbrev pub sdiv : ℕ → ℕ → ℕ
sdiv a b = if is_neg a then neg32 (neg32 a / b) else a / b

abbrev pub srem : ℕ → ℕ → ℕ
srem a b = if is_neg a then neg32 (neg32 a % b) else a % b

-- a >> 1 of a signed word keeps the sign.
abbrev pub sar1 : ℕ → ℕ
sar1 a = if is_neg a then a / 2 + 2 ^ 31 else a / 2

-- x & ~(2 ^ k - 1) and x & (2 ^ k - 1).
abbrev pub clear_low : ℕ → ℕ → ℕ
clear_low x k = x / 2 ^ k * 2 ^ k

abbrev pub low_bits : ℕ → ℕ → ℕ
low_bits x k = x % 2 ^ k
