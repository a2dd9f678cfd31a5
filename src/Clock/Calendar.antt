-- ===== src/Clock/Calendar.antt =====
-- `toLocalTime` and the Gregorian calendar: the date and time that it computes denote the seconds that
-- it was given, as long as the two calendars have the same leap years.
use mathlib.Core.Path.{subst}
use lib_net_co_rpc.Prelude.{
  ℕ, zero, suc, ◌+◌, ◌-◌, ◌*◌, ◌/◌, ◌%◌, ◌^◌, ◌<◌, ◌≤◌, ◌≡◌, refl, sym, ap, ◌∙◌, Bool, true, false,
  ltb, ◌==◌, if◌then◌else◌, arith, inl, inr, Bool-cases, get_or,
}
use lib_net_co_rpc.Prelude.Int.{ℤ}
use lib_net_co_rpc.Clock.{
  Tm, days, hours_of_year, year_loop, month_loop, month_and_day, local_second, to_local_time,
}

-- The calendar of the code, where every fourth year is a leap year: the days from 1 January 1970 to
-- that of a year, counted from 1900
abbrev days_before_year : ℕ → ℕ
days_before_year year = 365 * (year - 70) + (year - 69) / 4

abbrev leap : ℕ → Bool
leap year = year % 4 == 0

-- the days of the months before `mon`, in a year that is not a leap year
pub days_before_month : ℕ → ℕ
days_before_month zero = 0
days_before_month (suc mon) = days_before_month mon + get_or days mon 0

-- the day of the year, from 1
abbrev day_of_year : ℕ → ℕ → ℕ → ℕ
day_of_year year mon mday =
    days_before_month mon + mday + (if leap year then (if ltb 1 mon then 1 else 0) else 0)

abbrev days_of_month : ℕ → ℕ → ℕ
days_of_month year mon = get_or days mon 0 + (if leap year then (if mon == 1 then 1 else 0) else 0)

-- the seconds since 1970 that a date and time denote
abbrev seconds_of : Tm → ℕ
seconds_of t =
    ((days_before_year t.tm_year + (day_of_year t.tm_year t.tm_mon t.tm_mday - 1)) * 24 + t.tm_hour)
      * 3600
    + t.tm_min * 60
    + t.tm_sec

-- The loop over the years finds the year and the hours into it.
year_loop_correct :
    (q r : ℕ)
    → r < 35064
    → let (year, hours) = year_loop 3 (q * 4 + 70) r in
      (days_before_year year * 24 + hours ≡ q * 35064 + r)
      × (hours < hours_of_year year)
      × (70 ≤ year)
unfolding year_loop
year_loop_correct q r h =
    let l0 : ((q * 4 + 70) % 4 == 0) ≡ false = ground arith in
    let l1 : ((q * 4 + 70 + 1) % 4 == 0) ≡ false = ground arith in
    let l2 : ((q * 4 + 70 + 1 + 1) % 4 == 0) ≡ true = ground arith in
    let l3 : ((q * 4 + 70 + 1 + 1 + 1) % 4 == 0) ≡ false = ground arith in
    elim (Bool-cases (ltb r 8760)) [
      | inl a ↦ rw (l0, a) (omega arith, ground arith, omega arith)
      | inr a ↦ elim (Bool-cases (ltb (r - 8760) 8760)) [
        | inl b ↦ rw (l0, l1, a, b) (ground arith, ground arith, omega arith)
        | inr b ↦ elim (Bool-cases (ltb (r - 8760 - 8760) 8784)) [
          | inl c ↦ rw (l0, l1, l2, a, b, c) (ground arith, ground arith, omega arith)
          | inr c ↦ rw (l0, l1, l2, a, b, c) (ground arith, rw l3 (ground arith), omega arith)
        ]
      ]
    ]

-- The loop over the months keeps the day of the year, and ends at a day of its month.
month_loop_correct :
    (fuel mon day : ℕ)
    → fuel + mon ≡ 12
    → 1 ≤ day
    → days_before_month mon + day ≤ 365
    → let (m, d) = month_loop fuel mon day in
      (days_before_month m + d ≡ days_before_month mon + day)
      × (1 ≤ d)
      × (d ≤ get_or days m 0)
      × (m < 12)
unfolding month_loop days_before_month
month_loop_correct zero mon day e low high =
    let twelve : mon ≡ 12 = omega arith in
    let all : days_before_month mon ≡ 365 = ap days_before_month twelve in absurd (omega arith)
month_loop_correct (suc fuel) mon day e low high = elim (Bool-cases (ltb (get_or days mon 0) day)) [
  | inl later ↦
      let next : days_before_month (mon + 1) ≡ days_before_month mon + get_or days mon 0 =
        ap days_before_month (plus_one mon) in
      let later' : get_or days mon 0 < day = ground arith in
      let (kept, l, h, m) =
        month_loop_correct fuel (mon + 1) (day - get_or days mon 0) (omega arith) (omega arith)
          (omega arith) in
      rw later (kept ∙ (omega arith), l, h, m)
  | inr here ↦ rw here (refl, low, ground arith, omega arith)
]
  where
    plus_one : (n : ℕ) → n + 1 ≡ suc n
    plus_one n = omega arith

days_before_month_late : (m : ℕ) → 59 ≤ days_before_month (suc (suc m))
unfolding days_before_month
days_before_month_late zero = omega arith
days_before_month_late (suc m) = let h = days_before_month_late m in omega (arith, h)

after_february : (m e d : ℕ) → days_before_month m + e ≡ d → e ≤ get_or days m 0 → 60 ≤ d → 1 < m
unfolding days_before_month
after_february zero e d eq h l = absurd (omega arith)
after_february (suc zero) e d eq h l = absurd (omega arith)
after_february (suc (suc m)) e d eq h l = omega arith

until_february : (m e d : ℕ) → days_before_month m + e ≡ d → 1 ≤ e → d < 60 → m ≤ 1
until_february zero e d eq h l = omega arith
until_february (suc zero) e d eq h l = omega arith
until_february (suc (suc m)) e d eq h l =
    let low = days_before_month_late m in absurd (omega (arith, low))

-- The day of the month of a day of the year.
month_and_day_correct :
    (year day : ℕ)
    → 1 ≤ day
    → day ≤ (if leap year then 366 else 365)
    → let (mon, mday) = month_and_day year day in
      (day_of_year year mon mday ≡ day) × (1 ≤ mday) × (mday ≤ days_of_month year mon) × (mon < 12)
unfolding month_and_day days_before_month
month_and_day_correct year day low high = elim (Bool-cases (leap year)) [
  | inr plain ↦
      let (e, l, h, m) = month_loop_correct 12 0 day (omega arith) low (ground arith) in
      rw plain (omega (arith, e), l, omega (arith, h), m)
  | inl is_leap ↦ elim (Bool-cases (ltb 60 day)) [
    | inl late ↦
        let late' : 60 < day = ground arith in
        let (e, l, h, m) =
          month_loop_correct 12 0 (day - 1) (omega arith) (omega arith) (ground arith) in
        let e' : days_before_month (month_loop 12 0 (day - 1)).0 + (month_loop 12 0 (day - 1)).1
            ≡ day - 1 =
          omega (arith, e) in
        let march = after_february _ _ (day - 1) e' h (omega arith) in
        rw (is_leap, late) (ground arith, l, ground arith, m)
    | inr early ↦ elim (Bool-cases (day == 60)) [
      | inl feb_29 ↦
          rw (is_leap, early, feb_29) (ground arith, ground arith, ground arith, ground arith)
      | inr other ↦
          let (e, l, h, m) = month_loop_correct 12 0 day (omega arith) low (ground arith) in
          let e' : days_before_month (month_loop 12 0 day).0 + (month_loop 12 0 day).1 ≡ day =
            omega (arith, e) in
          let winter = until_february _ _ day e' l (ground arith) in
          rw (is_leap, early, other) (ground arith, l, ground arith, m)
    ]
  ]
]

-- The Gregorian calendar, with years counted from 1900.
abbrev pub gregorian_leap : ℕ → Bool
gregorian_leap year =
    if (year + 1900) % 400 == 0
    then true
    else if (year + 1900) % 100 == 0
    then false
    else (year + 1900) % 4 == 0

-- the days from 1 January 1970: 719162 days come before it
abbrev pub gregorian_days : ℕ → ℕ
gregorian_days year =
    365 * (year + 1899) + (year + 1899) / 4 + (year + 1899) / 400 - (year + 1899) / 100 - 719162

abbrev pub gregorian_day_of_year : ℕ → ℕ → ℕ → ℕ
gregorian_day_of_year year mon mday =
    days_before_month mon + mday + (if gregorian_leap year then (if ltb 1 mon then 1 else 0) else 0)

abbrev pub gregorian_month : ℕ → ℕ → ℕ
gregorian_month year mon =
    get_or days mon 0 + (if gregorian_leap year then (if mon == 1 then 1 else 0) else 0)

-- the seconds since 1970 that a date and time denote
abbrev pub gregorian_seconds : Tm → ℕ
gregorian_seconds t =
    ((gregorian_days t.tm_year + (gregorian_day_of_year t.tm_year t.tm_mon t.tm_mday - 1)) * 24
        + t.tm_hour)
      * 3600
    + t.tm_min * 60
    + t.tm_sec

gregorian_days-same :
    (year : ℕ) → 70 ≤ year → year ≤ 200 → gregorian_days year ≡ days_before_year year
gregorian_days-same year low high = omega arith

gregorian_leap-same : (year : ℕ) → 70 ≤ year → year < 200 → gregorian_leap year ≡ leap year
gregorian_leap-same year low high = ground arith

-- What holds of the date and time of `toLocalTime` in the calendar of the code.
every_fourth :
    (second timezone : ℤ)
    → local_second second timezone / 60 / 60 < 2 ^ 32
    → let t = to_local_time second timezone in
      (seconds_of t ≡ local_second second timezone)
      × (t.tm_sec < 60)
      × (t.tm_min < 60)
      × (t.tm_hour < 24)
      × (t.tm_mon < 12)
      × (1 ≤ t.tm_mday)
      × (t.tm_mday ≤ days_of_month t.tm_year t.tm_mon)
      × (70 ≤ t.tm_year)
unfolding to_local_time
every_fourth second timezone h =
    let s = local_second second timezone in
    let hours = s / 60 / 60 in
    let small : hours % 2 ^ 32 ≡ hours = omega arith in
    let (ye, yl, since) = year_loop_correct (hours / 35064) (hours % 35064) (omega arith) in
    let y = year_loop 3 (hours / 35064 * 4 + 70) (hours % 35064) in
    let (de, low, high, mon) =
      month_and_day_correct y.0 (y.1 / 24 + 1) (omega arith) (in_year y.0 y.1 yl) in
    rw small (
      assemble (days_before_year y.0) _ y.1 s (ye ∙ whole hours) de,
      omega arith,
      omega arith,
      omega arith,
      mon,
      low,
      high,
      since,
    )
  where
    whole : (n : ℕ) → n / 35064 * 35064 + n % 35064 ≡ n
    whole n = omega arith

    assemble :
        (before day hours s : ℕ)
        → before * 24 + hours ≡ s / 60 / 60
        → day ≡ hours / 24 + 1
        → ((before + (day - 1)) * 24 + hours % 24) * 3600 + s / 60 % 60 * 60 + s % 60 ≡ s
    assemble before day hours s e f = omega arith

    in_year :
        (year hours : ℕ)
        → hours < hours_of_year year
        → hours / 24 + 1 ≤ (if leap year then 366 else 365)
    in_year year hours l = ground arith

-- 2100 is a leap year in the code's calendar only, which makes no difference before 1 March.
at_2100 :
    (mon mday : ℕ)
    → 1 ≤ mday
    → mday ≤ days_of_month 200 mon
    → days_before_year 200 + (day_of_year 200 mon mday - 1) < 47541
    → {y : ℕ} → 200 ≡ y
    → (gregorian_days y + (gregorian_day_of_year y mon mday - 1)
        ≡ days_before_year y + (day_of_year y mon mday - 1))
      × (mday ≤ gregorian_month y mon)
unfolding days_before_month
at_2100 zero mday low high early e = rw⁻¹ e (refl, high)
at_2100 (suc zero) mday low high early e = rw⁻¹ e (refl, omega arith)
at_2100 (suc (suc mon)) mday low high early e =
    let late = days_before_month_late mon in absurd (ground (arith, late))

-- A day of the code's calendar before 1 March 2100 is the same in the Gregorian one.
same_day :
    (year mon mday : ℕ)
    → 70 ≤ year
    → 1 ≤ mday
    → mday ≤ days_of_month year mon
    → days_before_year year + (day_of_year year mon mday - 1) < 47541
    → (gregorian_days year + (gregorian_day_of_year year mon mday - 1)
        ≡ days_before_year year + (day_of_year year mon mday - 1))
      × (mday ≤ gregorian_month year mon)
same_day year mon mday since low high early =
    let by : year ≤ 200 = omega arith in
    let same = gregorian_days-same year since by in
    elim (Bool-cases (ltb year 200)) [
      | inl before ↦
          let equal = gregorian_leap-same year since (ground arith) in rw (same, equal) (refl, high)
      | inr in_2100 ↦
          let last : year ≡ 200 = ground arith in
          at_2100 mon mday low (subst (λ y. mday ≤ days_of_month y mon) last high)
            (subst (λ y. days_before_year y + (day_of_year y mon mday - 1) < 47541) last early)
            (sym last)
    ]

-- Before 1 March 2100, the date and time of `toLocalTime` denote, in the Gregorian calendar, the
-- seconds that it was given, less the time zone and 0 if that is negative; and every field is in its
-- range.
pub to_local_time_correct :
    (second timezone : ℤ)
    → local_second second timezone < 4107542400
    → let t = to_local_time second timezone in
      (gregorian_seconds t ≡ local_second second timezone)
      × (t.tm_sec < 60)
      × (t.tm_min < 60)
      × (t.tm_hour < 24)
      × (t.tm_mon < 12)
      × (1 ≤ t.tm_mday)
      × (t.tm_mday ≤ gregorian_month t.tm_year t.tm_mon)
to_local_time_correct second timezone h =
    let (e, sec, min, hour, mon, low, high, since) = every_fourth second timezone (omega arith) in
    let t = to_local_time second timezone in
    let day = days_before_year t.tm_year + (day_of_year t.tm_year t.tm_mon t.tm_mday - 1) in
    let (f, fits) =
      same_day t.tm_year t.tm_mon t.tm_mday since low high
        (before_march day t.tm_hour t.tm_min t.tm_sec (local_second second timezone) e h) in
    (
      ap (λ d. (d * 24 + t.tm_hour) * 3600 + t.tm_min * 60 + t.tm_sec) f ∙ e,
      sec,
      min,
      hour,
      mon,
      low,
      fits,
    )
  where
    before_march :
        (day hour min sec s : ℕ)
        → (day * 24 + hour) * 3600 + min * 60 + sec ≡ s
        → s < 4107542400
        → day < 47541
    before_march day hour min sec s e h = omega arith
