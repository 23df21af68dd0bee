-- ===== src/PxTimer/Deadline.antt =====
-- The time up to which `trc_time_proc_delay` sleeps.
use pc_env_vu.Base.{◌+◌, ◌<◌, ◌≡◌, refl, ap, true, some, arith}
use pc_env_vu.PxTimer.{
  Timespec, TrcTime, zero_time, add_time, trc_time_proc_sync, trc_time_proc_msync,
  trc_time_proc_delay, eintr,
}
use pc_env_vu.PxTimer.Elapsed.{nanos, IsTime}

add_time-nanos :
    (t d : Timespec)
    → IsTime t
    → IsTime d
    → (nanos (add_time t d) ≡ nanos t + nanos d) × ((add_time t d).tv_nsec < 1000000000)
unfolding add_time
add_time-nanos t d i j = ground arith

add_time-zero : (t : Timespec) → IsTime t → add_time t zero_time ≡ t
unfolding add_time
add_time-zero t i = ground arith

-- The deadline that `trc_time_proc_sync` sets is the period of the stopwatch after now, with less than a
-- second in its nanoseconds. `trc_time_proc_msync` with a period sets the same deadline as
-- `trc_time_proc_sync` on a stopwatch of that period.
pub proc_sync-nanos :
    (p : TrcTime) (now : Timespec)
    → IsTime now
    → IsTime p.tv
    → (nanos ((trc_time_proc_sync p (some now)).1.last) ≡ nanos now + nanos p.tv)
      × ((trc_time_proc_sync p (some now)).1.last.tv_nsec < 1000000000)
      × (trc_time_proc_msync p (some now) (some p.tv) ≡ some (trc_time_proc_sync p (some now)))
unfolding trc_time_proc_sync trc_time_proc_msync
proc_sync-nanos p now i j = let (a, b) = add_time-nanos now p.tv i j in (a, b, refl)

-- A sleep that a signal ends returns 0 at once and leaves the present time as the deadline, whatever
-- the deadline was: the loop does not go round.
pub delay_cut_short :
    (p : TrcTime) (now : Timespec)
    → IsTime now
    → trc_time_proc_delay p eintr (some now) ≡ (true, record p { last = now })
unfolding trc_time_proc_delay
delay_cut_short p now i = ap (λ t. (true, record p { last = t })) (add_time-zero now i)
