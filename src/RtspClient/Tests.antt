-- ===== src/RtspClient/Tests.antt =====
-- A client whose queues hold two frames, over packets of a video stream 1 and of an audio stream 0.
use mathlib.Core.List.{map}
use pc_env_vu.Base.{ℕ, ◌*◌, min, ◌≡◌, refl, none, some, List, [], ◌∷◌, ◌++◌, arith, take, Text}
use pc_env_vu.BaStream.Bytes.{bytes_of}
use pc_env_vu.RtspClient.{
  Client, start, video, audio, find_streams, Packet, packet, signal, upload, Event, run, handle,
  set_ba_stream_status, pull_one, pull_video, with_status, is_index,
}
use pc_env_vu.RtspClient.Dumping.{arrivals, IsDumping}
use pc_env_vu.RtspClient.Recording.{last_frames, record_event}

abbrev opened : Client
opened = record {
  vs_idx = none;
  as_idx = none;
  fps = 0;
  status = start;
  vbas = none;
  bak = some [];
  uploads = 0;
  frame = none;
  ri = 0;
  ctx = 0;
}

abbrev found : Client
found = record opened { vs_idx = some 1; as_idx = some 0; fps = 25 }

finds_streams :
    find_streams 0
      (record { kind = audio; num = 0; den = 0 } ∷ record { kind = video; num = 50; den = 2 } ∷ [])
      opened
    ≡ some found
unfolding find_streams
finds_streams = refl

abbrev packet_of : ℕ → Text → Packet
packet_of i bytes = record { stream_index = i; data_of = record { bytes = bytes; flags = 0 } }

abbrev early_packets : List Packet
early_packets =
    packet_of 1 (1 ∷ [])
    ∷ packet_of 0 (7 ∷ [])
    ∷ packet_of 1 (2 ∷ 3 ∷ 4 ∷ [])
    ∷ packet_of 1 (5 ∷ [])
    ∷ []

abbrev late_events : List Event
late_events =
    upload 1 2 ∷ packet (packet_of 1 (8 ∷ [])) ∷ upload 2 4 ∷ packet (packet_of 1 (9 ∷ [])) ∷ []

record_event_example :
    (out rest : Text) × (c' : Client) × (run 2 1 found
        (map packet early_packets ++ (signal ∷ packet (packet_of 1 (6 ∷ [])) ∷ late_events))
      ≡ some (out, c'))
    × (out ++ rest ≡ bytes_of (last_frames 1 (min 2 (10 * 25)) early_packets))
    × IsDumping 1
        (min 2 (10 * 25))
        rest
        (take (min 2 (10 * 25)) (record { bytes = 6 ∷ []; flags = 0 } ∷ arrivals 1 late_events))
        c'
record_event_example =
    record_event 2 1 1 found early_packets (packet_of 1 (6 ∷ [])) late_events
      (record { at_start = refl; video_index = refl; none_read = refl; none_started = refl })
      (omega arith) refl refl refl tt

-- A signal before the first video packet: the stream is NULL where the packet comes.
signal_first : run 2 1 found (signal ∷ packet (packet_of 1 (6 ∷ [])) ∷ []) ≡ none
unfolding run handle set_ba_stream_status pull_one pull_video with_status is_index
signal_first = refl
