-- ===== src/Kernel/Mktime/Tests.antt =====
-- Runs of `kernel_mktime`, and its theorem at a date.
use linux_0_11_read.Prelude.{◌≡◌, refl, some, arith}
use linux_0_11_read.Kernel.Mktime.{Tm, pos, negsuc, kernel_mktime}
use linux_0_11_read.Kernel.Mktime.Calendar.{IsDate, calendar_seconds, kernel_mktime-eq-calendar}

-- 1991-12-01 12:30:15.
abbrev december_1991 : Tm
december_1991 = record {
  tm_sec = 15;
  tm_min = 30;
  tm_hour = 12;
  tm_mday = 1;
  tm_mon = 11;
  tm_year = 91;
}

december_1991_runs : kernel_mktime december_1991 ≡ some (pos 691590615)
unfolding kernel_mktime
december_1991_runs = refl

december_1991-IsDate : IsDate december_1991
december_1991-IsDate = omega arith

kernel_mktime-eq-calendar_example :
    kernel_mktime december_1991 ≡ some (pos (calendar_seconds december_1991))
kernel_mktime-eq-calendar_example = kernel_mktime-eq-calendar december_1991 december_1991-IsDate

-- 2038-01-20 does not fit.
too_late :
    kernel_mktime (record december_1991 { tm_mday = 20; tm_mon = 0; tm_year = 138 })
    ≡ some (negsuc 2147363880)
unfolding kernel_mktime
too_late = refl
