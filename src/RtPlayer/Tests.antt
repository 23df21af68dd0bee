-- ===== src/RtPlayer/Tests.antt =====
-- A player of mono samples of one byte, in chunks of two, with a queue of two chunks.
use pc_env_vu.Base.{◌≡◌, refl, some, List, [], ◌∷◌, true, false, arith}
use pc_env_vu.MtQueue
use pc_env_vu.AlsaCtrl.{count, failure, AlsaCtrl, Round, transfer, turn, alsa_ctrl_read_stream}
use pc_env_vu.AlsaCtrl.Honest.{IsHonest}
use pc_env_vu.RtPlayer.{
  unstarted, at_test, RtPlayer, chunk_size, Effect, Step, rec_tests, rec_reads, starts, ply_tests,
  ply_plays, record_chunk, read_chunk, play_chunk, step, run,
}
use pc_env_vu.RtPlayer.Flow.{Flow, IsValid, run-Flow}
use pc_env_vu.RtPlayer.Uneven.{IsUnrecorded, run_uneven}

abbrev device : AlsaCtrl
device = record {
  handle = true;
  can_pause = false;
  period_frames = 2;
  bytes_per_frame = 1;
  abort_flag = false;
}

abbrev two_frames : List Round
two_frames =
    record {
      abort = false;
      transferred = count 2;
      recovered = count 0;
      retried = failure;
      resumed = [];
      abort_behind = false;
      prepared = failure;
    }
    ∷ []

abbrev ready : RtPlayer
ready = record {
  rec = device;
  queue = record { q = []; max_count = 2; is_wait_was_exited = false };
  pause_flag = false;
  full_flag = false;
  chunk_bytes = 2;
  recorder = at_test;
  player = unstarted;
}

abbrev three_chunks : List Step
three_chunks =
    rec_tests
    ∷ rec_reads two_frames (1 ∷ 2 ∷ [])
    ∷ rec_tests
    ∷ rec_reads two_frames (3 ∷ 4 ∷ [])
    ∷ rec_tests
    ∷ rec_reads two_frames (5 ∷ 6 ∷ [])
    ∷ starts
    ∷ ply_tests
    ∷ ply_plays false
    ∷ []

ready-IsValid : IsValid ready
ready-IsValid = record { room = omega arith; bounded = omega arith }

run-Flow_example : (e : Effect) × (run ready three_chunks ≡ some e) × Flow ready e
run-Flow_example = run-Flow three_chunks ready ready-IsValid

-- The first chunk is dropped, the second one is played, the third one waits.
plays_second :
    run ready three_chunks
    ≡ some (record {
      recorded = (1 ∷ 2 ∷ []) ∷ (3 ∷ 4 ∷ []) ∷ (5 ∷ 6 ∷ []) ∷ [];
      played = (3 ∷ 4 ∷ []) ∷ [];
      after = record ready {
        queue = record ready.queue { q = (5 ∷ 6 ∷ []) ∷ [] };
        full_flag = true;
        player = at_test;
      };
    })
unfolding run step read_chunk record_chunk play_chunk alsa_ctrl_read_stream transfer turn
    MtQueue.cyc_write MtQueue.read_for
plays_second = refl

-- 1 ms of 22255 stereo frames a second.
uneven_size : chunk_size 22255 4 1 ≡ 89
unfolding chunk_size
uneven_size = refl

abbrev uneven : RtPlayer
uneven = record ready { rec = record device { bytes_per_frame = 4 }; chunk_bytes = 89 }

-- 22 frames are 88 bytes.
abbrev all_frames : List Round
all_frames =
    record {
      abort = false;
      transferred = count 22;
      recovered = count 0;
      retried = failure;
      resumed = [];
      abort_behind = false;
      prepared = failure;
    }
    ∷ []

abbrev one_chunk : List Step
one_chunk = rec_tests ∷ rec_reads all_frames (1 ∷ 2 ∷ []) ∷ rec_tests ∷ starts ∷ []

all_frames_read : alsa_ctrl_read_stream uneven.rec 89 all_frames ≡ some (some 88)
unfolding alsa_ctrl_read_stream transfer turn
all_frames_read = refl

all_frames-IsHonest : IsHonest 22 all_frames
unfolding turn
all_frames-IsHonest = λ n e. (ground (arith, e), tt)

run_uneven_example : (e : Effect) × (run uneven one_chunk ≡ some e) × IsUnrecorded uneven e
run_uneven_example =
    run_uneven one_chunk uneven (record { room = omega arith; bounded = omega arith }) (omega arith)
      (omega arith, (λ e. omega (arith, e))) (tt, (all_frames-IsHonest, (tt, (tt, tt))))
