-- ===== src/PxTimer/Elapsed.antt =====
-- What the differences of times are.
use pc_env_vu.Base.{
  ℕ, ◌+◌, ◌-◌, ◌*◌, ◌/◌, ◌≤◌, ◌<◌, ◌^◌, ◌≡◌, ap, ap₂, ◌∙◌, Bool, true, some, List, [], ◌∷◌, arith,
  ltb, if◌then◌else◌, sub_size, size_max,
}
use pc_env_vu.PxTimer.{Timespec, TrcTime, get_tsv, in_level, get_tsd, trc_time_get, rec_tmie_get}

-- A time in nanoseconds.
abbrev pub nanos : Timespec → ℕ
nanos t = t.tv_sec * 1000000000 + t.tv_nsec

-- A time that the clock gives, less than 2 ^ 33 seconds after its start.
pub record IsTime (t : Timespec) : Type 0 where
  pub early : t.tv_sec < 2 ^ 33
  pub below : t.tv_nsec < 1000000000

sub_size-eq : (a b : ℕ) → b ≤ a → a < 2 ^ 64 → sub_size a b ≡ a - b
sub_size-eq a b le small = omega arith

-- The difference of two such times, and what is made of it.
module _ (t2 t1 : Timespec) (i1 : IsTime t1) (i2 : IsTime t2) (later : nanos t1 ≤ nanos t2)
    (parts : t1.tv_nsec ≤ t2.tv_nsec) where
  apart : Timespec
  apart = record { tv_sec = t2.tv_sec - t1.tv_sec; tv_nsec = t2.tv_nsec - t1.tv_nsec }

  parts_sign : ltb (sub_size t2.tv_nsec t1.tv_nsec) (2 ^ 63) ≡ true
  parts_sign = ground arith

  get_tsv-apart : get_tsv t2 t1 ≡ (true, apart)
  unfolding get_tsv apart
  get_tsv-apart =
      ap₂ (λ b t. (b, t)) parts_sign
        (ap₂ (λ s n. record { tv_sec = s; tv_nsec = n })
          (sub_size-eq t2.tv_sec t1.tv_sec (omega arith) (omega arith))
          (sub_size-eq t2.tv_nsec t1.tv_nsec parts (omega arith)))

  get_tsd-apart : (lev : ℕ) → get_tsd t2 t1 lev ≡ in_level apart lev
  unfolding get_tsd
  get_tsd-apart lev = ap (λ r. if r.0 then in_level r.1 lev else size_max) get_tsv-apart

-- Where the later time has the larger part below the second, `get_tsd` gives the time that went by, in
-- seconds, milliseconds, microseconds and nanoseconds, each rounded down.
pub get_tsd-nanos :
    (t2 t1 : Timespec)
    → IsTime t1
    → IsTime t2
    → nanos t1 ≤ nanos t2
    → t1.tv_nsec ≤ t2.tv_nsec
    → (get_tsd t2 t1 b's' ≡ (nanos t2 - nanos t1) / 1000000000)
      × (get_tsd t2 t1 b'm' ≡ (nanos t2 - nanos t1) / 1000000)
      × (get_tsd t2 t1 b'u' ≡ (nanos t2 - nanos t1) / 1000)
      × (get_tsd t2 t1 b'n' ≡ nanos t2 - nanos t1)
unfolding in_level apart
get_tsd-nanos t2 t1 i1 i2 later parts = (
  went b's' ∙ omega arith,
  went b'm' ∙ omega arith,
  went b'u' ∙ omega arith,
  went b'n' ∙ omega arith,
)
  where
    went : (lev : ℕ) → get_tsd t2 t1 lev ≡ in_level (apart t2 t1 i1 i2 later parts) lev
    went = get_tsd-apart t2 t1 i1 i2 later parts

-- Where it has the smaller part, `get_tsd` gives -1 at every level, however much later it is.
pub get_tsd_refuses :
    (t2 t1 : Timespec) (lev : ℕ)
    → IsTime t1
    → IsTime t2
    → t2.tv_nsec < t1.tv_nsec
    → get_tsd t2 t1 lev ≡ size_max
unfolding get_tsd get_tsv
get_tsd_refuses t2 t1 lev i1 i2 less = ground arith

-- `trc_time_get` and `rec_tmie_get` give the nanoseconds that went by.
pub trc_time_get-nanos :
    (p : TrcTime) (now : Timespec) (sync : Bool)
    → IsTime p.last
    → IsTime now
    → nanos p.last ≤ nanos now
    → ((trc_time_get p (some now) sync).0 ≡ nanos now - nanos p.last)
      × ((rec_tmie_get p.last (some now) sync).0 ≡ nanos now - nanos p.last)
unfolding trc_time_get rec_tmie_get
trc_time_get-nanos p now sync i1 i2 later = (omega arith, omega arith)

-- The clock's readings after `t` do not go back.
abbrev pub AllLater : Timespec → List Timespec → Type 0
AllLater t [] = Unit
AllLater t (u ∷ us) = IsTime u × (nanos t ≤ nanos u) × AllLater u us

abbrev pub last_of : Timespec → List Timespec → Timespec
last_of t [] = t
last_of t (u ∷ us) = last_of u us

-- The sum of what synchronising calls of `trc_time_get` give at these readings.
pub laps : TrcTime → List Timespec → ℕ
laps p [] = 0
laps p (t ∷ ts) = let r = trc_time_get p (some t) true in r.0 + laps r.1 ts

-- What synchronising calls of `trc_time_get` give adds up to the time from the first start to the last
-- reading: no nanosecond between two calls is lost.
pub laps-nanos :
    (ts : List Timespec) (p : TrcTime)
    → IsTime p.last
    → AllLater p.last ts
    → nanos p.last + laps p ts ≡ nanos (last_of p.last ts)
unfolding laps trc_time_get
laps-nanos [] p i later = omega arith
laps-nanos (t ∷ ts) p i later =
    let (now, after, rest) = later in
    omega (
      arith,
      now.early,
      now.below,
      after,
      i.early,
      i.below,
      laps-nanos ts (record p { cur = t; last = t }) now rest,
    )
