-- ===== src/RtspClient.antt =====
-- RtspClient (package/app/RtspPullHandle/src/ffapp.cpp): the packets of a camera go into a BaStream; a
-- signal starts an upload of what came before it. FFmpeg's reader gives the packets, libcurl calls the
-- read function; a signal comes between two packets, and the calls of one upload are one after the other.
pub mod Rounds
pub mod Buffering
pub mod Dumping
pub mod Recording
mod Tests
use pc_env_vu.Base.{
  ℕ, suc, ◌+◌, ◌*◌, ◌/◌, bit_and, Option, none, some, List, [], ◌∷◌, ◌++◌, Bool, true, false, ◌==◌,
  ltb, if◌then◌else◌, ◌>>=◌, Text,
}
use pc_env_vu.MtQueue
use pc_env_vu.BaStream.{
  FrameData, BaStream, get_ri_flags, set_wait_exit_cond, write_befor, write_after, Reading,
  read_buf,
}

pub data DumpStatus : Type 0 where
  start cycw dump geti done : DumpStatus

-- The object with what `pullSteamLoop` keeps: the indices of the two streams, which `none` has as -1;
-- `mVbas`, where `none` is NULL; the bytes of the backup file, where `none` is none that is open; how
-- many upload threads were started; and the variables of `readBuf`, which are static.
pub record Client : Type 0 where
  pub vs_idx : Option ℕ
  pub as_idx : Option ℕ
  pub fps : ℕ
  pub status : DumpStatus
  pub vbas : Option BaStream
  pub bak : Option Text
  pub uploads : ℕ
  pub frame : Option FrameData
  pub ri : ℕ
  pub ctx : ℕ

pub data StreamKind : Type 0 where
  video audio other : StreamKind

-- An input stream: its kind, and its frame rate as a fraction.
pub record InStream : Type 0 where
  pub kind : StreamKind
  pub num : ℕ
  pub den : ℕ

-- The first loop of `pullSteamLoop`; `none` is a division by 0.
unfoldable pub find_streams : (i : ℕ) → List InStream → Client → Option Client
find_streams i [] c = some c
find_streams i (s ∷ streams) c = elim s.kind [
  | video ↦
      if s.den == 0
      then none
      else find_streams (suc i) streams (record c { vs_idx = some i; fps = s.num / s.den })
  | audio ↦ find_streams (suc i) streams (record c { as_idx = some i })
  | other ↦ find_streams (suc i) streams c
]

-- `setBAStreamStatus`, which the handler of SIGUSR1 calls.
unfoldable pub set_ba_stream_status : Client → Client
set_ba_stream_status c = record c { status = geti }

unfoldable pub back_up : Client → FrameData → Client
back_up c f = record c { bak = elim c.bak [ none ↦ none | some old ↦ some (old ++ f.bytes) ] }

-- A Boolean as the integer that a comparison makes of it.
unfoldable pub int_of : Bool → ℕ
int_of true = 1
int_of false = 0

-- `pkt.stream_index == vsIdx`
unfoldable pub is_index : Option ℕ → ℕ → Bool
is_index none i = false
is_index (some v) i = i == v

pub record Packet : Type 0 where
  pub stream_index : ℕ
  pub data_of : FrameData

-- What comes to the client: a packet, a signal, and a call of the read function of an upload.
pub data Event : Type 0 where
  packet : Packet → Event
  signal : Event
  upload : (size nmemb : ℕ) → Event

-- The stream with the variables of `readBuf`.
abbrev pub reading : Client → BaStream → Reading
reading c s = record { stream = s; frame = c.frame; ri = c.ri; ctx = c.ctx }

-- The greatest size of a deque, and AV_PKT_FLAG_KEY.
module _ (max_size key : ℕ) where
  -- The branch of START.
  unfoldable pub new_stream : Client → Client
  new_stream c = record c {
    vbas = some (record {
      befor = MtQueue.create max_size (10 * c.fps);
      after = MtQueue.create max_size (10 * c.fps);
    });
    status = cycw;
  }

  -- The branches of CYCW, GETI and DUMP; `none` is a use of NULL, or of the back of an empty deque.
  unfoldable pub with_status : Client → FrameData → Option Client
  with_status c f = elim c.status [
    | start ↦ some c
    | cycw ↦ buffered
    | geti ↦ c.vbas >>= λ s.
        if bit_and (get_ri_flags s) key == 0 then buffered else some (back_up (dumping s) f)
    | dump ↦ c.vbas >>= λ s.
        if ltb (int_of (write_after s f).0) 0
        then some
            (record c { status = start; vbas = some (set_wait_exit_cond (write_after s f).1) })
        else some (record c { vbas = some (write_after s f).1 })
    | done ↦ some c
  ]
    where
      buffered : Option Client
      buffered = do s ← c.vbas; s' ← write_befor s f; some (back_up (record c { vbas = some s' }) f)

      dumping : BaStream → Client
      dumping s = record c {
        status = dump;
        vbas = some (write_after s f).1;
        uploads = suc c.uploads;
      }

  unfoldable pub pull_video : Client → FrameData → Option Client
  pull_video c f = elim c.status [
    | start ↦ with_status (new_stream c) f
    | cycw ↦ with_status c f
    | dump ↦ with_status c f
    | geti ↦ with_status c f
    | done ↦ with_status c f
  ]

  -- A round of the loop: audio packets are only logged.
  unfoldable pub pull_one : Client → Packet → Option Client
  pull_one c pkt = if is_index c.vs_idx pkt.stream_index then pull_video c pkt.data_of else some c

  -- `read_callback`: the bytes that libcurl gets. A call that waits gives none and changes nothing.
  unfoldable pub read_callback : Client → (size nmemb : ℕ) → Option (Text × Client)
  read_callback c size nmemb = c.vbas >>= λ s. elim (read_buf (reading c s) (size * nmemb)) [
    | none ↦ some ([], c)
    | some (bytes, r) ↦
        some (bytes, record c { vbas = some r.stream; frame = r.frame; ri = r.ri; ctx = r.ctx })
  ]

  unfoldable pub handle : Client → Event → Option (Text × Client)
  handle c (packet pkt) = pull_one c pkt >>= λ c'. some ([], c')
  handle c signal = some ([], set_ba_stream_status c)
  handle c (upload size nmemb) = read_callback c size nmemb

  -- What is uploaded during events, and the client behind them.
  unfoldable pub run : Client → List Event → Option (Text × Client)
  run c [] = some ([], c)
  run c (e ∷ es) = do (out, c') ← handle c e; (more, last) ← run c' es; some (out ++ more, last)
