-- ===== src/Kernel/Mktime/Calendar.antt =====
-- The Gregorian calendar, counted year by year and month by month, against `kernel_mktime`.
use linux_0_11_read.Prelude.{
  ℕ, zero, suc, ◌+◌, ◌-◌, ◌*◌, ◌/◌, ◌%◌, ◌≤◌, ◌<◌, ◌≡◌, refl, ◌&&◌, ◌||◌, Bool, true, false, [],
  ◌∷◌, some, arith, not, is_neg, ◌==◌, if◌then◌else◌, get_elem?-eq-get_or, get_or, table_passes,
  table_passes_at, ltb, ==_iff,
}
use linux_0_11_read.Kernel.Mktime.{Tm, pos, month, add_up, kernel_mktime}

-- The rule of 1582, for a year counted from 1970.
abbrev pub is_leap : ℕ → Bool
is_leap y = (1970 + y) % 4 == 0 && (not ((1970 + y) % 100 == 0) || (1970 + y) % 400 == 0)

abbrev pub days_of_year : ℕ → ℕ
days_of_year y = if is_leap y then 366 else 365

abbrev pub days_of_month : Bool → ℕ → ℕ
days_of_month leap m =
    get_or (31 ∷ (if leap then 29 else 28) ∷ 31 ∷ 30 ∷ 31 ∷ 30 ∷ 31 ∷ 31 ∷ 30 ∷ 31 ∷ 30 ∷ 31 ∷ []) m
      0

-- The days of the years from 1970 on, before year `y`.
pub days_before_year : ℕ → ℕ
days_before_year zero = 0
days_before_year (suc y) = days_before_year y + days_of_year y

-- The days of the months of a year before month `m`.
pub days_before_month : Bool → ℕ → ℕ
days_before_month leap zero = 0
days_before_month leap (suc m) = days_before_month leap m + days_of_month leap m

-- Seconds since the start of 1970, with no overflow.
pub calendar_seconds : Tm → ℕ
calendar_seconds tm =
    let y = tm.tm_year - 70 in
    let days = days_before_year y + days_before_month (is_leap y) tm.tm_mon + (tm.tm_mday - 1) in
    days * 86400 + tm.tm_hour * 3600 + tm.tm_min * 60 + tm.tm_sec

-- A date and a time of day from 1970 to 2037.
pub record IsDate (tm : Tm) : Type 0 where
  pub year_from : 70 ≤ tm.tm_year
  pub year_to : tm.tm_year < 138
  pub mon : tm.tm_mon < 12
  pub mday_from : 1 ≤ tm.tm_mday
  pub mday_to : tm.tm_mday ≤ 31
  pub hour_to : tm.tm_hour < 24
  pub min_to : tm.tm_min < 60
  pub sec_to : tm.tm_sec < 61

leap-mod : (y : ℕ) → y < 130 → is_leap y ≡ ((y + 2) % 4 == 0)
leap-mod y h = ground arith

days_before_year_lem : (y : ℕ) → y < 131 → days_before_year y ≡ 365 * y + (y + 1) / 4
unfolding days_before_year
days_before_year_lem zero h = refl
days_before_year_lem (suc y) h = ground (arith, days_before_year_lem y, leap-mod y)

-- What February 29 of the table adds to a date of a common year.
abbrev surplus : Bool → ℕ → ℕ
surplus leap m = if leap then 0 else if ltb 1 m then 1 else 0

abbrev month_matches : Bool → ℕ → Bool
month_matches leap m = get_or month m 0 == (days_before_month leap m + surplus leap m) * 86400

month_table : (leap : Bool) → table_passes (month_matches leap) 12 ≡ true
unfolding table_passes days_before_month
month_table true = refl
month_table false = refl

-- The table of month starts is that of a leap year.
month_lem :
    (leap : Bool) (m : ℕ)
    → m < 12
    → get_or month m 0 ≡ (days_before_month leap m + surplus leap m) * 86400
month_lem leap m h = (==_iff _ _).0 (table_passes_at (month_matches leap) 12 m h (month_table leap))

abbrev month_in_range : Bool → ℕ → Bool
month_in_range leap m =
    ltb (days_before_month leap m) 336 && (ltb m 2 || ltb 0 (days_before_month leap m))

range_table : (leap : Bool) → table_passes (month_in_range leap) 12 ≡ true
unfolding table_passes days_before_month
range_table true = refl
range_table false = refl

days_before_month_bounds :
    (leap : Bool) (m : ℕ)
    → m < 12
    → (days_before_month leap m < 336) × (1 < m → 1 ≤ days_before_month leap m)
days_before_month_bounds leap m h =
    ground (arith, table_passes_at (month_in_range leap) 12 m h (range_table leap))

-- No step of the sum overflows.
add_up_lem :
    (tm : Tm) (before : ℕ)
    → IsDate tm
    → before < 86400 * 336
    → (1 < tm.tm_mon → 86400 ≤ before)
    → let y = tm.tm_year - 70 in
      add_up tm before
      ≡ (365 * y + (y + 1) / 4 + (tm.tm_mday - 1)) * 86400
        + before
        - surplus ((y + 2) % 4 == 0) tm.tm_mon * 86400
        + tm.tm_hour * 3600
        + tm.tm_min * 60
        + tm.tm_sec
unfolding add_up
add_up_lem tm before d h k = ground arith

-- For every date and time of day from 1970 to 2037, with a day of the month up to 31 and a second
-- up to 60, the signed result of kernel_mktime is the number of seconds that a count over years by
-- the Gregorian rule and over months gives, and so not negative.
pub kernel_mktime-eq-calendar :
    (tm : Tm) → IsDate tm → kernel_mktime tm ≡ some (pos (calendar_seconds tm))
unfolding kernel_mktime calendar_seconds
kernel_mktime-eq-calendar tm d =
    rw (get_elem?-eq-get_or month tm.tm_mon 0 d.mon, seconds, small) refl
  where
    y : ℕ
    y = tm.tm_year - 70

    seconds : add_up tm (get_or month tm.tm_mon 0) ≡ calendar_seconds tm
    seconds = ground (
      arith,
      add_up_lem tm (get_or month tm.tm_mon 0) d,
      month_lem (is_leap y) tm.tm_mon d.mon,
      days_before_month_bounds (is_leap y) tm.tm_mon d.mon,
      days_before_year_lem y,
      leap-mod y,
    )

    small : is_neg (calendar_seconds tm) ≡ false
    small =
        ground
          (arith, d, days_before_month_bounds (is_leap y) tm.tm_mon d.mon, days_before_year_lem y)
