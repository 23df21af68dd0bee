-- ===== src/BaStream.antt =====
-- BAStream (package/app/RtspPullHandle/src/BAStream.h): frames of a stream in two queues of MTQueue, the
-- one that holds those before an event, and the one for those after it.
pub mod Bytes
mod Tests
use pc_env_vu.Base.{
  ℕ, zero, suc, ◌+◌, ◌-◌, Option, none, some, List, [], ◌∷◌, ◌++◌, Bool, true, false, ◌==◌, leb,
  ltb, if◌then◌else◌, ◌>>=◌, length, take, drop, Text,
}
use pc_env_vu.MtQueue
use pc_env_vu.MtQueue.{MtQueue, Outcome, returns, waits, undefined, set_wait_exit_state}

-- A frame that is copied from a packet.
pub record FrameData : Type 0 where
  pub bytes : Text
  pub flags : ℕ

-- `getFlags` gives the size.
unfoldable pub get_flags : FrameData → ℕ
get_flags f = length f.bytes

-- `is_befor_read_done` is set to false by each read, before it is looked at.
pub record BaStream : Type 0 where
  pub befor : MtQueue FrameData
  pub after : MtQueue FrameData

unfoldable pub get_ri_flags : BaStream → ℕ
get_ri_flags s = elim (MtQueue.get s.befor) [ none ↦ 0 | some frame ↦ get_flags frame ]

pub set_wait_exit_cond : BaStream → BaStream
set_wait_exit_cond s = record s { after = set_wait_exit_state s.after }

-- `none` is a queue of bound 0.
unfoldable pub write_befor : BaStream → FrameData → Option BaStream
write_befor s frame = elim (MtQueue.cyc_write s.befor frame) [
  | returns old befor ↦ some (record s { befor = befor })
  | waits ↦ none
  | undefined ↦ none
]

-- Whether the frame is taken.
unfoldable pub write_after : BaStream → FrameData → Bool × BaStream
write_after s frame = elim (MtQueue.write s.after frame) [
  | returns ok after ↦ (ok, record s { after = after })
  | waits ↦ (false, s)
  | undefined ↦ (false, s)
]

-- `readOne`. The `read` of `befor` that it calls gives no NULL, so that it never comes to `after`: where
-- `befor` is empty it waits, which is `none`.
unfoldable pub read_one : BaStream → Option (FrameData × BaStream)
read_one s = elim (MtQueue.read s.befor) [
  | returns frame befor ↦ some (frame, record s { befor = befor })
  | waits ↦ none
  | undefined ↦ none
]

-- The stream with the variables of `readBuf`, which last from call to call: the frame that is being
-- read, with `ri` and `ctx`.
pub record Reading : Type 0 where
  pub stream : BaStream
  pub frame : Option FrameData
  pub ri : ℕ
  pub ctx : ℕ

-- The part of `readBuf` behind its first `if`, on a frame.
unfoldable pub read_frame : FrameData → Reading → (size : ℕ) → Text × Reading
read_frame f r size =
    let r_get = if ltb size r.ctx then size else r.ctx in
    (
      take r_get (drop r.ri f.bytes),
      record r {
        frame = if r.ctx - r_get == 0 then none else some f;
        ri = r.ri + r_get;
        ctx = r.ctx - r_get;
      },
    )

-- `readBuf`: the bytes that are copied; `none` is a call that waits.
unfoldable pub read_buf : Reading → (size : ℕ) → Option (Text × Reading)
read_buf r size = elim r.frame [
  | some f ↦ some (read_frame f r size)
  | none ↦ read_one r.stream >>= λ (f, stream).
      some (
        read_frame f (record { stream = stream; frame = some f; ri = 0; ctx = length f.bytes })
          size)
]

-- Calls of `readBuf` with buffers of these sizes, up to one that waits; the last component says whether
-- one does.
unfoldable pub read_bufs : Reading → (sizes : List ℕ) → Text × Reading × Bool
read_bufs r [] = ([], r, false)
read_bufs r (size ∷ sizes) = elim (read_buf r size) [
  | none ↦ ([], r, true)
  | some (bytes, r') ↦ let (out, last, waited) = read_bufs r' sizes in (bytes ++ out, last, waited)
]
