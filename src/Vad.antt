-- ===== src/Vad.antt =====
-- vad_op.c: a voice activity detector, fed one chunk of 16-bit samples at a call.
pub mod Bounds
pub mod Counting
mod Tests
use pc_env_vu.Base.{
  ℕ, zero, suc, ◌+◌, ◌-◌, ◌*◌, ◌/◌, ◌%◌, ◌^◌, Bool, true, false, Option, none, some, ltb, leb, ◌==◌,
  if◌then◌else◌, ◌>>=◌, Block, peek,
}

-- `vad_status_t`, but its two bounds.
pub data Status : Type 0 where
  idel started speaking finished done : Status

-- `vad_args_t`. `confirm_count` is an `unsigned char`.
pub record Args : Type 0 where
  pub sample : Block
  pub bytes : ℕ
  pub saved_status : Status
  pub confirm_count : ℕ
  pub vad_threshold : ℕ
  pub started_confirm_count : ℕ
  pub finished_confirm_count : ℕ
  pub unit_bytes : ℕ

-- The square of the `short` at byte offset `p`, low byte first.
unfoldable pub square_at : Block → ℕ → Option ℕ
square_at b p = do
  low ← peek b p
  high ← peek b (p + 1)
  let s = low + 256 * high
  some (if ltb s (2 ^ 15) then s * s else (2 ^ 16 - s) * (2 ^ 16 - s))

-- The two sums over `left` samples from offset `p` on, below 2 ^ 63 as the samples are.
unfoldable pub unit_sums : Args → (left p sum sum2 : ℕ) → Option Bool
unit_sums a zero p sum sum2 = some (ltb sum2 sum)
unit_sums a (suc left) p sum sum2 =
    square_at a.sample p >>= λ s. unit_sums a left (p + 2) (sum + s) (sum2 + a.vad_threshold)

unfoldable pub chunk_unit_compare : Args → ℕ → Option Bool
chunk_unit_compare a idx = unit_sums a (a.unit_bytes / 2) (idx * a.unit_bytes % 2 ^ 32) 0 0

-- `(size_t)(x * 0.1)` is the tenth rounded down for every `unsigned int`.
abbrev pub min_over_times : ℕ → ℕ
min_over_times x = if ltb 0 (x / 10) then x / 10 else 1

-- The loop over the units from `i` on.
unfoldable pub over_times : Args → (left i over : ℕ) → Option ℕ
over_times a zero i over = some over
over_times a (suc left) i over =
    chunk_unit_compare a i >>= λ hit. over_times a left (i + 1) (if hit then over + 1 else over)

-- `none` is a division by zero, or a read outside the chunk.
unfoldable pub is_chunk_speaking : Args → Option Bool
is_chunk_speaking a =
    let unit_count = a.bytes / a.unit_bytes in
    if a.unit_bytes == 0
    then none
    else (over_times a unit_count 0 0 >>= λ over. some (leb (min_over_times unit_count) over))

-- The count after `confirmCount++`.
abbrev pub confirmed : Args → ℕ
confirmed a = (a.confirm_count + 1) % 256

unfoldable pub from_idel : Args → Bool → Args
from_idel a false = record a { confirm_count = 0 }
from_idel a true =
    if leb a.started_confirm_count (confirmed a)
    then record a { confirm_count = 0; saved_status = started }
    else record a { confirm_count = confirmed a }

unfoldable pub from_started : Args → Bool → Args
from_started a true = record a { saved_status = speaking }
from_started a false = record a { saved_status = speaking; confirm_count = confirmed a }

unfoldable pub from_speaking : Args → Bool → Args
from_speaking a true = record a { confirm_count = 0 }
from_speaking a false =
    if leb a.finished_confirm_count (confirmed a)
    then record a { confirm_count = 0; saved_status = finished }
    else record a { confirm_count = confirmed a }

-- The status that is returned is the one that is saved.
unfoldable pub get_vad_status : Args → Option Args
get_vad_status a = elim (a.saved_status) [
  | idel ↦ is_chunk_speaking a >>= λ loud. some (from_idel a loud)
  | started ↦ is_chunk_speaking a >>= λ loud. some (from_started a loud)
  | speaking ↦ is_chunk_speaking a >>= λ loud. some (from_speaking a loud)
  | finished ↦ some a
  | done ↦ some a
]
