-- ===== src/PxTimer.antt =====
-- px_timer.c: differences and sums of times, and a stopwatch. A `long` is its bit pattern, below 2 ^ 64:
-- it is negative from 2 ^ 63 on. `none` for what the clock says is a `clock_gettime` that fails.
pub mod Elapsed
pub mod Deadline
mod Tests
use pc_env_vu.Base.{
  ℕ, ◌+◌, ◌*◌, ◌/◌, ◌^◌, Bool, true, false, ◌&&◌, Option, none, some, ltb, ◌==◌, if◌then◌else◌,
  ◌>>=◌, add_size, sub_size, mul_size, size_max,
}

-- `struct timespec`
pub record Timespec : Type 0 where
  pub tv_sec : ℕ
  pub tv_nsec : ℕ

abbrev pub zero_time : Timespec
zero_time = record { tv_sec = 0; tv_nsec = 0 }

-- `get_tsv`: the differences, and whether 0 is returned.
unfoldable pub get_tsv : (t2 t1 : Timespec) → Bool × Timespec
get_tsv t2 t1 = (
  ltb (sub_size t2.tv_nsec t1.tv_nsec) (2 ^ 63),
  record { tv_sec = sub_size t2.tv_sec t1.tv_sec; tv_nsec = sub_size t2.tv_nsec t1.tv_nsec },
)

-- The `switch` of `get_tsd`. Where it is reached, what is divided is not negative.
unfoldable pub in_level : Timespec → (lev : ℕ) → ℕ
in_level tv lev =
    if lev == b's'
    then tv.tv_sec
    else if lev == b'm'
    then add_size (mul_size tv.tv_sec 1000) (tv.tv_nsec / 1000000)
    else if lev == b'u'
    then add_size (mul_size tv.tv_sec 1000000) (tv.tv_nsec / 1000)
    else if lev == b'n'
    then add_size (mul_size tv.tv_sec 1000000000) tv.tv_nsec
    else size_max

unfoldable pub get_tsd : (pt2 pt1 : Timespec) → (lev : ℕ) → ℕ
get_tsd pt2 pt1 lev = let r = get_tsv pt2 pt1 in if r.0 then in_level r.1 lev else size_max

-- `trc_time_t`, but the clock's number.
pub record TrcTime : Type 0 where
  pub cur : Timespec
  pub last : Timespec
  pub tv : Timespec

pub trc_time_create : (allocated : Bool) → Option Timespec → Option TrcTime
trc_time_create false t = none
trc_time_create true none = some (record { cur = zero_time; last = zero_time; tv = zero_time })
trc_time_create true (some t) = some (record { cur = zero_time; last = zero_time; tv = t })

-- The flag says whether 0 is returned.
pub trc_time_sync : TrcTime → (now : Option Timespec) → Bool × TrcTime
trc_time_sync p none = (false, p)
trc_time_sync p (some now) = (true, record p { last = now })

unfoldable pub trc_time_get : TrcTime → (now : Option Timespec) → (sync : Bool) → ℕ × TrcTime
trc_time_get p none sync = (size_max, p)
trc_time_get p (some now) sync = (
  add_size (mul_size (sub_size now.tv_sec p.last.tv_sec) 1000000000)
      (sub_size now.tv_nsec p.last.tv_nsec),
  record p { cur = now; last = if sync then now else p.last },
)

-- `last += tv`, with a second carried.
unfoldable pub add_time : Timespec → Timespec → Timespec
add_time t d =
    let sec = add_size t.tv_sec d.tv_sec in
    let nsec = add_size t.tv_nsec d.tv_nsec in
    if ltb 999999999 nsec && ltb nsec (2 ^ 63)
    then record { tv_sec = add_size sec 1; tv_nsec = sub_size nsec 1000000000 }
    else record { tv_sec = sec; tv_nsec = nsec }

unfoldable pub trc_time_proc_sync : TrcTime → (now : Option Timespec) → Bool × TrcTime
trc_time_proc_sync p none = (false, p)
trc_time_proc_sync p (some now) = (true, record p { last = add_time now p.tv })

-- The outer `none` is an access through NULL.
unfoldable pub trc_time_proc_msync :
    TrcTime → (now : Option Timespec) → Option Timespec → Option (Bool × TrcTime)
trc_time_proc_msync p none t = some (false, p)
trc_time_proc_msync p (some now) none = none
trc_time_proc_msync p (some now) (some t) = some (true, record p { tv = t; last = add_time now t })

abbrev pub eintr : ℕ
eintr = 4

-- From what `clock_nanosleep` returns. The `ret` that the loop tests is the outer one, which stays 0, so
-- there is one round. With `TIMER_ABSTIME`, `rem` is not written to. A clock that fails leaves `last`.
unfoldable pub trc_time_proc_delay :
    TrcTime → (slept : ℕ) → (now : Option Timespec) → Bool × TrcTime
trc_time_proc_delay p slept now =
    if slept == 0
    then (true, p)
    else if slept == eintr
    then (true, record p { last = add_time (elim now [ none ↦ p.last | some t ↦ t ]) zero_time })
    else (false, p)

-- `rec_tmie_start` and `rec_tmie_get` keep their start in the variable `mts`.
pub rec_tmie_start : (mts : Timespec) → (now : Option Timespec) → Bool × Timespec
rec_tmie_start mts none = (false, mts)
rec_tmie_start mts (some now) = (true, now)

unfoldable pub rec_tmie_get :
    (mts : Timespec) → (now : Option Timespec) → (sync : Bool) → ℕ × Timespec
rec_tmie_get mts none sync = (size_max, mts)
rec_tmie_get mts (some now) sync = (
  add_size (mul_size (sub_size now.tv_sec mts.tv_sec) 1000000000)
      (sub_size now.tv_nsec mts.tv_nsec),
  if sync then now else mts,
)
