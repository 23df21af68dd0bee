-- ===== src/AlsaCtrl.antt =====
-- alsa_ctrl (package/libs/lzUtils/src/alsa_ctrl): the loops that read and write a sound device. What the
-- calls of ALSA return, and the abort flag where it is read, are arguments, a record for each round.
pub mod Whole
pub mod Silence
pub mod Honest
mod Tests
use pc_env_vu.Base.{
  ℕ, ◌+◌, ◌-◌, ◌*◌, ◌/◌, ◌%◌, ◌^◌, Option, none, some, List, [], ◌∷◌, Bool, true, false, not, ◌||◌,
  ◌&&◌, ◌==◌, leb, ltb, if◌then◌else◌, ◌>>=◌, to_int,
}

-- What a call of ALSA returns: a number from 0 on, or one of its errors.
pub data Ret : Type 0 where
  count : ℕ → Ret
  eagain epipe estrpipe failure : Ret

unfoldable pub negative : Ret → Bool
negative (count n) = false
negative eagain = true
negative epipe = true
negative estrpipe = true
negative failure = true

-- `handle` is whether the device is open.
pub record AlsaCtrl : Type 0 where
  pub handle : Bool
  pub can_pause : Bool
  pub period_frames : ℕ
  pub bytes_per_frame : ℕ
  pub abort_flag : Bool

unfoldable pub alsa_ctrl_prepare : AlsaCtrl → AlsaCtrl
alsa_ctrl_prepare a = record a { abort_flag = false }

unfoldable pub alsa_ctrl_abort : AlsaCtrl → AlsaCtrl
alsa_ctrl_abort a = record a { abort_flag = true }

unfoldable pub alsa_ctrl_close : AlsaCtrl → AlsaCtrl
alsa_ctrl_close a = record a { handle = false }

-- A round of the loop: the abort flag at its start; what the transfer returns, `snd_pcm_recover`, and
-- the transfer behind it; the abort flag and `snd_pcm_resume`, for each round of the inner loop; the
-- abort flag behind that, and `snd_pcm_prepare`.
pub record Round : Type 0 where
  pub abort : Bool
  pub transferred : Ret
  pub recovered : Ret
  pub retried : Ret
  pub resumed : List (Bool × Ret)
  pub abort_behind : Bool
  pub prepared : Ret

-- `r` behind the inner loop, where it was `last` before; `none` is one that goes on.
unfoldable pub resume : (last : Ret) → List (Bool × Ret) → Option Ret
resume last [] = none
resume last ((true, r) ∷ more) = some last
resume last ((false, eagain) ∷ more) = resume eagain more
resume last ((false, count n) ∷ more) = some (count n)
resume last ((false, epipe) ∷ more) = some epipe
resume last ((false, estrpipe) ∷ more) = some estrpipe
resume last ((false, failure) ∷ more) = some failure

-- What a round comes to: it moves on by some frames, or it leaves the loop.
pub data Turn : Type 0 where
  moves : ℕ → Turn
  leaves : Turn

-- `if (r > 0)`
unfoldable pub moved_by : Ret → Turn
moved_by (count n) = moves n
moved_by eagain = moves 0
moved_by epipe = moves 0
moved_by estrpipe = moves 0
moved_by failure = moves 0

unfoldable pub recover : (c : ℕ) → Round → Ret
recover c r = elim r.recovered [
  | count n ↦ if ltb 0 n && leb n c then r.retried else count n
  | eagain ↦ eagain
  | epipe ↦ epipe
  | estrpipe ↦ estrpipe
  | failure ↦ failure
]

unfoldable pub suspended : Round → Ret → Turn
suspended r back =
    if negative back
    then (if r.abort_behind || negative r.prepared then leaves else moves 0)
    else moved_by back

unfoldable pub turn : (c : ℕ) → Round → Option Turn
turn c r = elim r.transferred [
  | count n ↦ some (moves n)
  | eagain ↦ some (moves 0)
  | epipe ↦ some (moved_by (recover c r))
  | estrpipe ↦ resume estrpipe r.resumed >>= λ back. some (suspended r back)
  | failure ↦ some leaves
]

-- The loop, for `c` frames, with those that are moved so far; `none` is a loop that goes on. `c` is of
-- 64 bits.
unfoldable pub transfer : (c moved : ℕ) → List Round → Option ℕ
transfer c moved [] = if c == 0 then some moved else none
transfer c moved (r ∷ rounds) = if c == 0 || r.abort then some moved else elim (turn c r) [
  | none ↦ none
  | some leaves ↦ some moved
  | some (moves n) ↦ transfer ((c + 2 ^ 64 - n) % 2 ^ 64) (moved + n) rounds
]

-- `alsa_ctrl_read_stream`; the inner `none` is -1 at once. The outer one is a call that does not return:
-- its loop goes on, or it divides by 0. What it returns is `(int)(p - buffer)`.
unfoldable pub alsa_ctrl_read_stream : AlsaCtrl → (bytes : ℕ) → List Round → Option (Option ℕ)
alsa_ctrl_read_stream a bytes rounds =
    if a.abort_flag || not a.handle
    then some none
    else if a.bytes_per_frame == 0
    then none
    else (transfer (bytes / a.bytes_per_frame) 0 rounds >>= λ moved.
        some (some (to_int (moved * a.bytes_per_frame))))

-- `int silence_bytes`, a difference of 64 bits that is cut to an `int`: its bit pattern.
unfoldable pub silence_bytes : AlsaCtrl → (bytes : ℕ) → ℕ
silence_bytes a bytes =
    ((a.period_frames / a.bytes_per_frame + 2 ^ 64 - bytes % 2 ^ 64) % 2 ^ 64) % 2 ^ 32

unfoldable pub is_padded : AlsaCtrl → (bytes : ℕ) → Bool
is_padded a bytes = ltb 0 (silence_bytes a bytes) && ltb (silence_bytes a bytes) (2 ^ 31)

-- The frames that the write asks for, with frames that have bytes.
unfoldable pub write_count : AlsaCtrl → (bytes : ℕ) → ℕ
write_count a bytes = if is_padded a bytes then a.period_frames else bytes / a.bytes_per_frame

unfoldable pub alsa_ctrl_write_stream : AlsaCtrl → (bytes : ℕ) → List Round → Option (Option ℕ)
alsa_ctrl_write_stream a bytes rounds =
    if a.abort_flag || not a.handle
    then some none
    else if a.bytes_per_frame == 0
    then none
    else (transfer (write_count a bytes) 0 rounds >>= λ moved.
        some (some (to_int (moved * a.bytes_per_frame))))
