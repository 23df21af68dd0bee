-- ===== src/AnyStream.antt =====
-- anyStream (package/app/RtspStorage/src/streamHandle.h): a ring of frames in a vector of `max` slots.
pub mod Bounds
pub mod Silent
pub mod Overrun
mod Tests
use pc_env_vu.Base.{
  ℕ, zero, suc, ◌+◌, Option, none, some, List, [], ◌∷◌, Bool, true, false, ◌==◌, leb, ltb,
  if◌then◌else◌, Text,
}

-- `none` is a NULL in the vector.
pub record AnyStream : Type 0 where
  pub vct : List (Option Text)
  pub max : ℕ
  pub ri : ℕ
  pub wi : ℕ

-- What a call comes to: a value with the stream it leaves, or a use of the vector at an index that is
-- outside it.
pub data Use (R : Type 0) : Type 0 where
  returned : R → AnyStream → Use R
  outside : (index : ℕ) → Use R

pub data AnyStatus : Type 0 where
  succeed failed done : AnyStatus

abbrev pub nulls : ℕ → List (Option Text)
nulls zero = []
nulls (suc n) = none ∷ nulls n

-- The constructor sets neither index: they are what the memory holds.
unfoldable pub create : (max ri wi : ℕ) → AnyStream
create max ri wi = record { vct = nulls max; max = max; ri = ri; wi = wi }

abbrev pub slot : List (Option Text) → ℕ → Option (Option Text)
slot [] i = none
slot (x ∷ xs) zero = some x
slot (x ∷ xs) (suc i) = slot xs i

abbrev pub put : List (Option Text) → ℕ → Option Text → Option (List (Option Text))
put [] i x = none
put (y ∷ ys) zero x = some (x ∷ ys)
put (y ∷ ys) (suc i) x = elim (put ys i x) [ none ↦ none | some zs ↦ some (y ∷ zs) ]

-- `(i < mMax) ? (i + 1) : 0`
unfoldable pub next : AnyStream → ℕ → ℕ
next s i = if ltb i s.max then i + 1 else 0

unfoldable pub get_one : AnyStream → Use (Option Text)
get_one s =
    if s.wi == s.ri
    then returned none s
    else elim (slot s.vct s.ri) [ none ↦ outside s.ri | some frame ↦ returned frame s ]

-- The slot is deleted and set to NULL.
unfoldable pub get_sync : AnyStream → Use Unit
get_sync s = elim (put s.vct s.ri none) [
  | none ↦ outside s.ri
  | some vct ↦ returned tt (record s { vct = vct; ri = next s s.ri })
]

abbrev pub and_then : {R Q : Type 0} → Use R → (R → AnyStream → Use Q) → Use Q
and_then (returned r s) f = f r s
and_then (outside i) f = outside i

unfoldable pub copy_out : Option Text → AnyStream → Use (Option Text)
copy_out none s = returned none s
copy_out (some frame) s = and_then (get_sync s) (λ u s'. returned (some frame) s')

-- The frame that is copied; `none` is false.
unfoldable pub read_one : AnyStream → Use (Option Text)
read_one s = and_then (get_one s) copy_out

-- `wi` moves on, and the frame comes into its slot.
unfoldable pub write_next : {R : Type 0} → R → AnyStream → Text → Use R
write_next r s frame = elim (put s.vct (next s s.wi) (some frame)) [
  | none ↦ outside (next s s.wi)
  | some vct ↦ returned r (record s { vct = vct; wi = next s s.wi })
]

unfoldable pub cyc_write : AnyStream → Text → Use Bool
cyc_write s frame =
    and_then (if leb s.ri s.wi then get_sync s else returned tt s)
      (λ u s'. write_next true s' frame)

unfoldable pub write_one : AnyStream → Text → Use AnyStatus
write_one s frame = if leb s.ri s.wi then returned done s else write_next succeed s frame

-- The first `n` slots are set to NULL.
abbrev pub erase : ℕ → List (Option Text) → List (Option Text)
erase zero xs = xs
erase (suc n) [] = []
erase (suc n) (x ∷ xs) = none ∷ erase n xs

unfoldable pub clear : AnyStream → AnyStream
clear s = record s { vct = erase s.max s.vct; ri = 0; wi = 0 }

pub data Op : Type 0 where
  reads : Op
  cyc_writes : Text → Op
  writes : Text → Op
  clears : Op

-- What a call tells its caller.
pub data Told : Type 0 where
  read_told : Option Text → Told
  cyc_told : Bool → Told
  write_told : AnyStatus → Told
  nothing : Told

unfoldable pub call : AnyStream → Op → Use Told
call s reads = and_then (read_one s) (λ r s'. returned (read_told r) s')
call s (cyc_writes frame) = and_then (cyc_write s frame) (λ r s'. returned (cyc_told r) s')
call s (writes frame) = and_then (write_one s frame) (λ r s'. returned (write_told r) s')
call s clears = returned nothing (clear s)

-- What calls tell, and the stream behind them; `none` is one that goes outside the vector, with which
-- they end.
unfoldable pub calls : AnyStream → List Op → List Told × Option AnyStream
calls s [] = ([], some s)
calls s (op ∷ ops) = elim (call s op) [
  | outside i ↦ ([], none)
  | returned t s' ↦ let (told, last) = calls s' ops in (t ∷ told, last)
]
