-- ===== src/RtPlayer.antt =====
-- RtPlayer (package/app/CPPBox/src/RtPlayer): a thread records chunks into a queue, another plays them,
-- and a signal pauses and resumes both. The device is AlsaCtrl, the queue MtQueue; what ALSA returns,
-- the bytes that it records, and the order of the steps are arguments.
pub mod Flow
pub mod Uneven
mod Tests
use pc_env_vu.Base.{
  to_size, ℕ, ◌*◌, ◌/◌, ◌%◌, ◌^◌, Option, none, some, List, [], ◌∷◌, ◌++◌, Bool, true, false, ◌==◌,
  if◌then◌else◌, ◌>>=◌, length, take, Text,
}
use pc_env_vu.MtQueue
use pc_env_vu.MtQueue.{MtQueue, returns, waits, undefined}
use pc_env_vu.AlsaCtrl.{AlsaCtrl, Round, alsa_ctrl_read_stream}

-- Where a thread is: not started yet, before the test of the flag in its loop, behind it, or out of it.
pub data Place : Type 0 where
  unstarted at_test at_work exited : Place

pub record RtPlayer : Type 0 where
  pub rec : AlsaCtrl
  pub queue : MtQueue Text
  pub pause_flag : Bool
  pub full_flag : Bool
  pub chunk_bytes : ℕ
  pub recorder : Place
  pub player : Place

-- `mChunkBytes`, of 64 bits.
unfoldable pub chunk_size : (sample_rate bytes_per_frame chunk_time_ms : ℕ) → ℕ
chunk_size sample_rate bytes_per_frame chunk_time_ms =
    (sample_rate * bytes_per_frame % 2 ^ 64 / 1000 * chunk_time_ms) % 2 ^ 64

-- A step of a thread, or of the handler of the signal. The constructor starts the player once the queue
-- is full. `rec_reads` has what `framesBuf` holds behind the read, `ply_plays` whether a wait of the
-- queue has run out. A pause sets the flag, and clears the queue later.
pub data Step : Type 0 where
  rec_tests : Step
  rec_reads : (rounds : List Round) (buf : Text) → Step
  starts : Step
  ply_tests : Step
  ply_plays : (expired : Bool) → Step
  pauses clears resumes : Step

-- What a step puts into the queue, what it hands to the device that plays, and what it leaves.
pub record Effect : Type 0 where
  pub recorded : List Text
  pub played : List Text
  pub after : RtPlayer

abbrev pub silent : RtPlayer → Effect
silent p = record { recorded = []; played = []; after = p }

abbrev pub tested : Bool → Place → Place
tested paused unstarted = unstarted
tested true at_test = at_test
tested false at_test = at_work
tested paused at_work = at_work
tested paused exited = exited

-- The player is started once, where the queue is full.
abbrev pub started : Bool → Place → Place
started false place = place
started true unstarted = at_test
started true at_test = at_test
started true at_work = at_work
started true exited = exited

abbrev pub is_at_work : Place → Bool
is_at_work unstarted = false
is_at_work at_test = false
is_at_work at_work = true
is_at_work exited = false

abbrev pub is_some : Option Text → Bool
is_some none = false
is_some (some x) = true

-- `mFullFlag = mMTQ->cycWrite(chunk)`; `none` is a queue of bound 0.
unfoldable pub record_chunk : RtPlayer → Text → Option Effect
record_chunk p chunk = elim (MtQueue.cyc_write p.queue chunk) [
  | returns old queue ↦ some (record {
    recorded = chunk ∷ [];
    played = [];
    after = record p { queue = queue; full_flag = is_some old; recorder = at_test };
  })
  | waits ↦ some (silent p)
  | undefined ↦ none
]

-- The loop of the recorder behind the test: a read that fails or is short is dropped. One that does not
-- return leaves the recorder in it.
unfoldable pub read_chunk : RtPlayer → List Round → Text → Option Effect
read_chunk p rounds buf = elim (alsa_ctrl_read_stream p.rec p.chunk_bytes rounds) [
  | none ↦ some (silent p)
  | some none ↦ some (silent (record p { recorder = at_test }))
  | some (some n) ↦
      if to_size n == p.chunk_bytes
      then record_chunk p (take (to_size n) buf)
      else some (silent (record p { recorder = at_test }))
]

-- The loop of the player behind the test. What the write to the device returns is only logged.
unfoldable pub play_chunk : RtPlayer → (expired : Bool) → Option Effect
play_chunk p expired = elim (MtQueue.read_for expired p.queue) [
  | returns none queue ↦ some (silent (record p { queue = queue; player = exited }))
  | returns (some chunk) queue ↦ some (record {
    recorded = [];
    played = chunk ∷ [];
    after = record p { queue = queue; player = at_test };
  })
  | waits ↦ some (silent p)
  | undefined ↦ none
]

-- A step of a thread that is elsewhere changes nothing.
unfoldable pub step : RtPlayer → Step → Option Effect
step p rec_tests = some (silent (record p { recorder = tested p.pause_flag p.recorder }))
step p (rec_reads rounds buf) =
    if is_at_work p.recorder then read_chunk p rounds buf else some (silent p)
step p starts = some (silent (record p { player = started p.full_flag p.player }))
step p ply_tests = some (silent (record p { player = tested p.pause_flag p.player }))
step p (ply_plays expired) = if is_at_work p.player then play_chunk p expired else some (silent p)
step p pauses = some (silent (record p { pause_flag = true }))
step p clears = some (silent (record p { queue = MtQueue.clear p.queue }))
step p resumes = some (silent (record p { pause_flag = false }))

unfoldable pub run : RtPlayer → List Step → Option Effect
run p [] = some (silent p)
run p (s ∷ steps) = step p s >>= λ e. run e.after steps >>= λ r.
    some (record {
      recorded = e.recorded ++ r.recorded;
      played = e.played ++ r.played;
      after = r.after;
    })
