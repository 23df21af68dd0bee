-- ===== src/Vad/Bounds.antt =====
-- The detector reads inside the chunk, and its status only goes forward.
use pc_env_vu.Base.{
  ℕ, zero, suc, ◌+◌, ◌-◌, ◌*◌, ◌/◌, ◌%◌, ◌^◌, ◌≤◌, ◌<◌, ◌≡◌, ◌⊎◌, refl, Bool, some, arith, Block,
  peek-some, ltb, leb, if◌then◌else◌,
}
use pc_env_vu.Vad.{
  Status, idel, started, speaking, finished, done, Args, square_at, unit_sums, chunk_unit_compare,
  over_times, is_chunk_speaking, from_idel, from_started, from_speaking, get_vad_status,
}

square_at-some : (b : Block) (p : ℕ) → p + 2 ≤ b.size → (s : ℕ) × (square_at b p ≡ some s)
unfolding square_at
square_at-some b p h =
    let s = b.byte p + 256 * b.byte (p + 1) in
    (
      if ltb s (2 ^ 15) then s * s else (2 ^ 16 - s) * (2 ^ 16 - s),
      ground (arith, peek-some b p, peek-some b (p + 1)),
    )

unit_sums-some :
    (a : Args) (left p sum sum2 : ℕ)
    → p + 2 * left ≤ a.sample.size
    → (hit : Bool) × (unit_sums a left p sum sum2 ≡ some hit)
unfolding unit_sums
unit_sums-some a zero p sum sum2 h = (ltb sum2 sum, refl)
unit_sums-some a (suc left) p sum sum2 h =
    let (s, e) = square_at-some a.sample p (omega arith) in
    let (hit, e') =
      unit_sums-some a left (p + 2) (sum + s) (sum2 + a.vad_threshold) (omega arith) in
    (hit, ground arith)

over_times-some :
    (a : Args) (left i over : ℕ)
    → a.bytes < 2 ^ 32
    → a.bytes ≤ a.sample.size
    → (i + left) * a.unit_bytes ≤ a.bytes
    → (n : ℕ) × (over_times a left i over ≡ some n) × (n ≤ over + left)
unfolding over_times chunk_unit_compare
over_times-some a zero i over small held h = (over, refl, omega arith)
over_times-some a (suc left) i over small held h =
    let inside : i * a.unit_bytes + a.unit_bytes ≤ a.bytes = grind arith in
    let (hit, e) =
      unit_sums-some a (a.unit_bytes / 2) (i * a.unit_bytes % 2 ^ 32) 0 0 (omega arith) in
    let (n, e', le) =
      over_times-some a left (i + 1) (if hit then over + 1 else over) small held (omega arith) in
    (n, ground arith, ground arith)

-- What `get_vad_status` relies on: a unit is not empty, and the chunk is as long as said.
pub record IsValid (a : Args) : Type 0 where
  pub units : 0 < a.unit_bytes
  pub small : a.bytes < 2 ^ 32
  pub held : a.bytes ≤ a.sample.size

is_chunk_speaking-some : {a : Args} → IsValid a → (loud : Bool) × (is_chunk_speaking a ≡ some loud)
unfolding is_chunk_speaking
is_chunk_speaking-some {a} v =
    let (n, e, le) = over_times-some a (a.bytes / a.unit_bytes) 0 0 v.small v.held (grind arith) in
    let tenth = a.bytes / a.unit_bytes / 10 in
    (leb (if ltb 0 tenth then tenth else 1) n, ground arith)

-- The statuses that one call can lead to.
abbrev pub Next : Status → Status → Type 0
Next idel s = (s ≡ idel) ⊎ (s ≡ started)
Next started s = s ≡ speaking
Next speaking s = (s ≡ speaking) ⊎ (s ≡ finished)
Next finished s = s ≡ finished
Next done s = s ≡ done

from_idel-Next :
    (a : Args) (loud : Bool) → a.saved_status ≡ idel → Next idel (from_idel a loud).saved_status
unfolding from_idel
from_idel-Next a loud e = ground arith

from_speaking-Next :
    (a : Args) (loud : Bool)
    → a.saved_status ≡ speaking
    → Next speaking (from_speaking a loud).saved_status
unfolding from_speaking
from_speaking-Next a loud e = ground arith

status_step :
    (s : Status) {a : Args}
    → a.saved_status ≡ s
    → IsValid a
    → (a' : Args) × (get_vad_status a ≡ some a') × Next s a'.saved_status
unfolding get_vad_status
status_step idel {a} e v =
    let (loud, heard) = is_chunk_speaking-some v in
    (from_idel a loud, ground arith, from_idel-Next a loud e)
status_step started {a} e v =
    let (loud, heard) = is_chunk_speaking-some v in
    (from_started a loud, ground arith, unfold from_started in ground arith)
status_step speaking {a} e v =
    let (loud, heard) = is_chunk_speaking-some v in
    (from_speaking a loud, ground arith, from_speaking-Next a loud e)
status_step finished {a} e v = (a, ground arith, e)
status_step done {a} e v = (a, ground arith, e)

-- On a chunk of whole size with units that are not empty, a call divides by no zero, reads inside
-- the chunk, and takes the status forward: from idle to idle or started, from started to speaking,
-- from speaking to speaking or finished, and never out of finished or done.
pub get_vad_status_forward :
    (a : Args)
    → IsValid a
    → (a' : Args) × (get_vad_status a ≡ some a') × Next a.saved_status a'.saved_status
get_vad_status_forward a v = status_step a.saved_status refl v
