-- ===== src/Clock.antt =====
-- src/mstime.cc and include/mstime.h: times in milliseconds, and the calendar of `toLocalTime`.

pub mod Calendar
pub mod Interval
mod Tests
use lib_net_co_rpc.Prelude.{
  ℕ, zero, suc, ◌+◌, ◌-◌, ◌*◌, ◌/◌, ◌%◌, ◌^◌, Bool, true, false, ltb, leb, ◌==◌, if◌then◌else◌,
  List, [], ◌∷◌, get_or,
}
use lib_net_co_rpc.Prelude.Int.{ℤ, pos, negsuc, ◌+ℤ◌, ◌-ℤ◌, ◌*ℤ◌, ◌/ℤ◌, ltb_ℤ, leb_ℤ, eqb_ℤ}

-- `Time`, milliseconds since the epoch
abbrev pub Time : Type 0
Time = ℤ

-- `Time::now`, from the seconds and microseconds that `gettimeofday` gives
unfoldable pub now : ℤ → ℤ → Time
now tv_sec tv_usec = tv_sec *ℤ pos 1000 +ℤ tv_usec /ℤ pos 1000

pub record Timespec : Type 0 where
  pub tv_sec : ℤ
  pub tv_nsec : ℤ

-- `Time::timeIntervalFromNow`; the variable of the source counts milliseconds.
unfoldable pub time_interval_from_now : Time → Time → Timespec
time_interval_from_now time now_time =
    let microseconds = time -ℤ now_time in
    if ltb_ℤ microseconds (pos 1) then record { tv_sec = pos 0; tv_nsec = pos 1000 } else record {
      tv_sec = microseconds /ℤ pos 1000;
      tv_nsec = (microseconds -ℤ microseconds /ℤ pos 1000 *ℤ pos 1000) *ℤ pos 1000 *ℤ pos 1000;
    }

pub record Tm : Type 0 where
  pub tm_sec : ℕ
  pub tm_min : ℕ
  pub tm_hour : ℕ
  pub tm_mday : ℕ
  pub tm_mon : ℕ
  pub tm_year : ℕ

abbrev pub days : List ℕ
days = 31 ∷ 28 ∷ 31 ∷ 30 ∷ 31 ∷ 30 ∷ 31 ∷ 31 ∷ 30 ∷ 31 ∷ 30 ∷ 31 ∷ []

-- `n32_hpery`, the hours of a year
abbrev pub hours_of_year : ℕ → ℕ
hours_of_year year = if year % 4 == 0 then 365 * 24 + 24 else 365 * 24

-- The loop that takes whole years off the hours, on fuel. Three rounds are enough, as the hours are
-- below four years.
unfoldable pub year_loop : ℕ → ℕ → ℕ → ℕ × ℕ
year_loop zero year hours = (year, hours)
year_loop (suc fuel) year hours =
    let rest = year_loop fuel (year + 1) (hours - hours_of_year year) in
    if ltb hours (hours_of_year year) then (year, hours) else rest

-- The loop over the months, on fuel: `second` counts days from 1. Twelve rounds are enough.
unfoldable pub month_loop : ℕ → ℕ → ℕ → ℕ × ℕ
month_loop zero mon second = (mon, second)
month_loop (suc fuel) mon second =
    let rest = month_loop fuel (mon + 1) (second - get_or days mon 0) in
    if ltb (get_or days mon 0) second then rest else (mon, second)

-- The month and the day of the month, from 1, of the `day`-th day of a year, from 1.
unfoldable pub month_and_day : ℕ → ℕ → ℕ × ℕ
month_and_day year day =
    if year % 4 == 0
    then if ltb 60 day
      then month_loop 12 0 (day - 1)
      else if day == 60
      then (1, 29)
      else month_loop 12 0 day
    else month_loop 12 0 day

-- `second = second - timezone; if (second < 0) second = 0`
abbrev pub local_second : ℤ → ℤ → ℕ
local_second second timezone = elim (second -ℤ timezone) [ pos n ↦ n | negsuc n ↦ 0 ]

-- `Time::toLocalTime`
unfoldable pub to_local_time : ℤ → ℤ → Tm
to_local_time second timezone =
    let s = local_second second timezone in
    let hours = s / 60 / 60 in
    let n32_pass4year = hours % 2 ^ 32 / (1461 * 24) in
    let (year, rest) = year_loop 3 (n32_pass4year * 4 + 70) (hours % (1461 * 24)) in
    let (mon, mday) = month_and_day year (rest / 24 + 1) in
    record {
      tm_sec = s % 60;
      tm_min = s / 60 % 60;
      tm_hour = rest % 24;
      tm_mday = mday;
      tm_mon = mon;
      tm_year = year;
    }
