-- ===== src/PxTimer/Tests.antt =====
-- Runs of the stopwatch, and the theorems at them.
use pc_env_vu.Base.{◌+◌, ◌<◌, ◌≡◌, true, false, some, [], ◌∷◌, arith, size_max}
use pc_env_vu.PxTimer.{
  Timespec, TrcTime, zero_time, get_tsd, trc_time_get, rec_tmie_get, trc_time_proc_sync,
  trc_time_proc_msync, trc_time_proc_delay, eintr,
}
use pc_env_vu.PxTimer.Elapsed.{
  nanos, IsTime, get_tsd-nanos, get_tsd_refuses, trc_time_get-nanos, laps, laps-nanos,
}
use pc_env_vu.PxTimer.Deadline.{proc_sync-nanos, delay_cut_short}

abbrev early : Timespec
early = record { tv_sec = 5; tv_nsec = 900000000 }

abbrev late : Timespec
late = record { tv_sec = 7; tv_nsec = 950000000 }

-- Later than `early`, with a smaller part below the second.
abbrev borrowed : Timespec
borrowed = record { tv_sec = 7; tv_nsec = 100000000 }

early-IsTime : IsTime early
early-IsTime = record { early = omega arith; below = omega arith }

late-IsTime : IsTime late
late-IsTime = record { early = omega arith; below = omega arith }

borrowed-IsTime : IsTime borrowed
borrowed-IsTime = record { early = omega arith; below = omega arith }

-- Started at `early`, with a period of 2.05 seconds.
abbrev watch : TrcTime
watch = record { cur = zero_time; last = early; tv = record { tv_sec = 2; tv_nsec = 50000000 } }

get_tsd-nanos_example :
    (get_tsd late early b's' ≡ 2)
    × (get_tsd late early b'm' ≡ 2050)
    × (get_tsd late early b'u' ≡ 2050000)
    × (get_tsd late early b'n' ≡ 2050000000)
get_tsd-nanos_example =
    get_tsd-nanos late early early-IsTime late-IsTime (omega arith) (omega arith)

get_tsd_refuses_run : get_tsd borrowed early b's' ≡ size_max
get_tsd_refuses_run = get_tsd_refuses borrowed early b's' early-IsTime borrowed-IsTime (omega arith)

trc_time_get-nanos_run :
    ((trc_time_get watch (some borrowed) false).0 ≡ 1200000000)
    × ((rec_tmie_get early (some borrowed) false).0 ≡ 1200000000)
trc_time_get-nanos_run =
    trc_time_get-nanos watch borrowed false early-IsTime borrowed-IsTime (omega arith)

laps-nanos_example : 5900000000 + laps watch (borrowed ∷ late ∷ []) ≡ 7950000000
laps-nanos_example =
    laps-nanos (borrowed ∷ late ∷ []) watch early-IsTime
      (borrowed-IsTime, omega arith, (late-IsTime, omega arith, tt))

proc_sync-nanos_run :
    (nanos ((trc_time_proc_sync watch (some late)).1.last) ≡ 10000000000)
    × ((trc_time_proc_sync watch (some late)).1.last.tv_nsec < 1000000000)
    × (trc_time_proc_msync watch (some late) (some watch.tv)
        ≡ some (trc_time_proc_sync watch (some late)))
proc_sync-nanos_run =
    proc_sync-nanos watch late late-IsTime (record { early = omega arith; below = omega arith })

delay_cut_short_run :
    trc_time_proc_delay watch eintr (some late) ≡ (true, record watch { last = late })
delay_cut_short_run = delay_cut_short watch late late-IsTime
