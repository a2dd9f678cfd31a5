-- ===== src/Clock/Interval.antt =====
-- `timeIntervalFromNow` always gives a time that arms a timerfd.
use lib_net_co_rpc.Prelude.{
  ℕ, zero, suc, ◌+◌, ◌*◌, ◌/◌, ◌%◌, ◌<◌, ◌≡◌, refl, true, false, arith, if◌then◌else◌,
}
use lib_net_co_rpc.Prelude.Int.{ℤ, pos, negsuc, ◌+ℤ◌, ◌-ℤ◌, ◌*ℤ◌, ◌/ℤ◌, ltb_ℤ}
use lib_net_co_rpc.Clock.{Time, Timespec, time_interval_from_now}

-- A setting that `timerfd_settime` accepts and that arms the timer: not both numbers are 0.
abbrev pub Arms : Timespec → Type 0
Arms t =
    (s : ℕ) × (n : ℕ) × (t.tv_sec ≡ pos s) × (t.tv_nsec ≡ pos n) × (n < 1000000000) × (0 < s + n)

-- the interval of a difference of times
abbrev pub interval : ℤ → Timespec
interval d = if ltb_ℤ d (pos 1) then record { tv_sec = pos 0; tv_nsec = pos 1000 } else record {
  tv_sec = d /ℤ pos 1000;
  tv_nsec = (d -ℤ d /ℤ pos 1000 *ℤ pos 1000) *ℤ pos 1000 *ℤ pos 1000;
}

positive-Arms :
    (n : ℕ)
    → Arms (record {
      tv_sec = pos (suc n) /ℤ pos 1000;
      tv_nsec = (pos (suc n) -ℤ pos (suc n) /ℤ pos 1000 *ℤ pos 1000) *ℤ pos 1000 *ℤ pos 1000;
    })
unfolding ◌*ℤ◌ ◌-ℤ◌ ◌+ℤ◌ ◌/ℤ◌
positive-Arms n =
    ((suc n) / 1000, (suc n) % 1000 * 1000000, ground arith, ground arith, omega arith, omega arith)

interval-Arms : (d : ℤ) → Arms (interval d)
interval-Arms (negsuc n) =
    let e : ltb_ℤ (negsuc n) (pos 1) ≡ true = ground arith in
    rw e (0, 1000, refl, refl, omega arith, omega arith)
interval-Arms (pos zero) = (0, 1000, refl, refl, omega arith, omega arith)
interval-Arms (pos (suc n)) =
    let e : ltb_ℤ (pos (suc n)) (pos 1) ≡ false = ground arith in rw e (positive-Arms n)

-- Whatever the time and the clock, the interval is one that `timerfd_settime` accepts, and is not the
-- zero that would disarm the timer.
pub time_interval_from_now-Arms : (time now : Time) → Arms (time_interval_from_now time now)
unfolding time_interval_from_now
time_interval_from_now-Arms time now = interval-Arms (time -ℤ now)
