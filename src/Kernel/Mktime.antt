-- ===== src/Kernel/Mktime.antt =====
-- kernel/mktime.c: `kernel_mktime`, the conversion of a broken-down time to seconds since 1970.
pub mod Calendar
mod Tests
use linux_0_11_read.Prelude.{
  ℕ, ◌+◌, ◌-◌, ◌*◌, ◌^◌, is_neg, ◌&&◌, Bool, List, [], ◌∷◌, Option, none, some, add32, sub32, mul32,
  sdiv, srem, slt, not, ◌==◌, if◌then◌else◌, get_elem?,
}

-- The fields of `struct tm` that the function reads.
pub record Tm : Type 0 where
  pub tm_sec : ℕ
  pub tm_min : ℕ
  pub tm_hour : ℕ
  pub tm_mday : ℕ
  pub tm_mon : ℕ
  pub tm_year : ℕ

abbrev pub minute : ℕ
minute = 60

abbrev pub hour : ℕ
hour = 60 * minute

abbrev pub day : ℕ
day = 24 * hour

abbrev pub year_seconds : ℕ
year_seconds = 365 * day

-- `month[12]`: the seconds before each month of a leap year.
abbrev pub month : List ℕ
month =
    0
    ∷ (day * 31)
    ∷ (day * (31 + 29))
    ∷ (day * (31 + 29 + 31))
    ∷ (day * (31 + 29 + 31 + 30))
    ∷ (day * (31 + 29 + 31 + 30 + 31))
    ∷ (day * (31 + 29 + 31 + 30 + 31 + 30))
    ∷ (day * (31 + 29 + 31 + 30 + 31 + 30 + 31))
    ∷ (day * (31 + 29 + 31 + 30 + 31 + 30 + 31 + 31))
    ∷ (day * (31 + 29 + 31 + 30 + 31 + 30 + 31 + 31 + 30))
    ∷ (day * (31 + 29 + 31 + 30 + 31 + 30 + 31 + 31 + 30 + 31))
    ∷ (day * (31 + 29 + 31 + 30 + 31 + 30 + 31 + 31 + 30 + 31 + 30))
    ∷ []

-- What follows the read of `month[tm_mon]`.
pub add_up : Tm → ℕ → ℕ
add_up tm before =
    let year = sub32 tm.tm_year 70 in
    let res = add32 (mul32 year_seconds year) (mul32 day (sdiv (add32 year 1) 4)) in
    let res = add32 res before in
    let res = if slt 1 tm.tm_mon && not (srem (add32 year 2) 4 == 0) then sub32 res day else res in
    let res = add32 res (mul32 day (sub32 tm.tm_mday 1)) in
    let res = add32 res (mul32 hour tm.tm_hour) in
    let res = add32 res (mul32 minute tm.tm_min) in add32 res tm.tm_sec

pub data ℤ : Type 0 where
  pos : ℕ → ℤ
  negsuc : ℕ → ℤ

-- A word as a `long`.
abbrev pub as_long : ℕ → ℤ
as_long w = if is_neg w then negsuc (2 ^ 32 - 1 - w) else pos w

-- `none` is a read of `month` out of bounds.
pub kernel_mktime : Tm → Option ℤ
unfolding add_up
kernel_mktime tm = elim (get_elem? month tm.tm_mon) [
  | none ↦ none
  | some m ↦ some (as_long (add_up tm m))
]
