-- ===== src/Clock/Tests.antt =====
-- The clock at a time of November 2023, in the zone of Beijing.
use lib_net_co_rpc.Prelude.{◌<◌, ◌≤◌, ◌≡◌, refl, arith}
use lib_net_co_rpc.Prelude.Int.{pos, negsuc, ◌-ℤ◌}
use lib_net_co_rpc.Clock.{
  local_second, to_local_time, year_loop, month_and_day, month_loop, time_interval_from_now,
}
use lib_net_co_rpc.Clock.Calendar.{gregorian_seconds, gregorian_month, to_local_time_correct}
use lib_net_co_rpc.Clock.Interval.{Arms, time_interval_from_now-Arms}

to_local_time_correct_example :
    let t = to_local_time (pos 1700000000) (negsuc 28799) in
    (gregorian_seconds t ≡ local_second (pos 1700000000) (negsuc 28799))
    × (t.tm_sec < 60)
    × (t.tm_min < 60)
    × (t.tm_hour < 24)
    × (t.tm_mon < 12)
    × (1 ≤ t.tm_mday)
    × (t.tm_mday ≤ gregorian_month t.tm_year t.tm_mon)
unfolding ◌-ℤ◌
to_local_time_correct_example = to_local_time_correct (pos 1700000000) (negsuc 28799) (omega arith)

beijing :
    to_local_time (pos 1700000000) (negsuc 28799)
    ≡ record { tm_sec = 20; tm_min = 13; tm_hour = 6; tm_mday = 15; tm_mon = 10; tm_year = 123 }
unfolding ◌-ℤ◌ to_local_time year_loop month_and_day month_loop
beijing = refl

-- 1 March 2100, a day that the code takes for 29 February
in_2100 :
    to_local_time (pos 4107542400) (pos 0)
    ≡ record { tm_sec = 0; tm_min = 0; tm_hour = 0; tm_mday = 29; tm_mon = 1; tm_year = 200 }
unfolding ◌-ℤ◌ to_local_time year_loop month_and_day month_loop
in_2100 = refl

time_interval_from_now-Arms_example : Arms (time_interval_from_now (pos 1500) (pos 0))
time_interval_from_now-Arms_example = time_interval_from_now-Arms (pos 1500) (pos 0)
