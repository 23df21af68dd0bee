-- ===== src/RePlayer/Tests.antt =====
-- Two devices of 16 bits, and a chunk of one frame.
use pc_env_vu.Base.{◌≡◌, refl, some, List, [], ◌∷◌, true, false}
use pc_env_vu.AlsaCtrl.{
  count, eagain, failure, AlsaCtrl, Round, transfer, turn, alsa_ctrl_read_stream,
  alsa_ctrl_write_stream, write_count, is_padded, silence_bytes,
}
use pc_env_vu.RePlayer.{RePlayer, sleeps, resets_rec, resets_ply, replay, replay_chunk}

abbrev sound : AlsaCtrl
sound = record {
  handle = true;
  can_pause = false;
  period_frames = 4;
  bytes_per_frame = 2;
  abort_flag = false;
}

abbrev one_frame : Round
one_frame = record {
  abort = false;
  transferred = count 1;
  recovered = count 0;
  retried = failure;
  resumed = [];
  abort_behind = false;
  prepared = failure;
}

abbrev busy : Round
busy = record one_frame { transferred = eagain }

abbrev one_move : List Round
one_move = busy ∷ one_frame ∷ []

abbrev repeating : RePlayer
repeating = record { rec = sound; ply = sound; pause_flag = false; chunk_bytes = 2 }

-- Chunks of fewer bytes than the quotient: a period is written, and the device is reset.
short_chunk :
    replay
      (record repeating { ply = record sound { period_frames = 6; bytes_per_frame = 2 } })
      one_move
      (one_frame ∷ one_frame ∷ one_frame ∷ one_frame ∷ one_frame ∷ one_frame ∷ [])
    ≡ some resets_ply
unfolding replay replay_chunk alsa_ctrl_read_stream alsa_ctrl_write_stream write_count is_padded
    silence_bytes transfer turn
short_chunk = refl

paused : replay (record repeating { pause_flag = true }) one_move one_move ≡ some sleeps
unfolding replay
paused = refl

cut_short :
    replay repeating (record one_frame { transferred = failure } ∷ []) one_move ≡ some resets_rec
unfolding replay alsa_ctrl_read_stream transfer turn
cut_short = refl
