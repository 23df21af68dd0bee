-- ===== src/AlsaCtrl/Tests.antt =====
-- A device of four frames a period, of one byte each, and one of stereo frames.
use pc_env_vu.Base.{ℕ, none, ◌≡◌, refl, some, List, [], ◌∷◌, false, true}
use pc_env_vu.AlsaCtrl.{
  count, eagain, epipe, estrpipe, failure, AlsaCtrl, Round, alsa_ctrl_prepare, alsa_ctrl_abort,
  alsa_ctrl_close, alsa_ctrl_read_stream, alsa_ctrl_write_stream, write_count, is_padded,
  silence_bytes, transfer, turn, recover, moved_by, suspended, negative, resume,
}

abbrev mono : AlsaCtrl
mono = record {
  handle = true;
  can_pause = false;
  period_frames = 4;
  bytes_per_frame = 1;
  abort_flag = false;
}

abbrev stereo : AlsaCtrl
stereo = record mono { period_frames = 1024; bytes_per_frame = 4 }

abbrev moving : ℕ → Round
moving n = record {
  abort = false;
  transferred = count n;
  recovered = count 0;
  retried = failure;
  resumed = [];
  abort_behind = false;
  prepared = failure;
}

-- An overrun that `snd_pcm_recover` repairs.
abbrev overrun : Round
overrun = record (moving 0) { transferred = epipe }

-- A suspension that ends with the second `snd_pcm_resume`.
abbrev suspension : Round
suspension = record (moving 0) {
  transferred = estrpipe;
  resumed = (false, eagain) ∷ (false, count 0) ∷ [];
}

abbrev three_moves : List Round
three_moves = moving 1 ∷ overrun ∷ moving 1 ∷ suspension ∷ moving 1 ∷ []

abbrev three_frames : AlsaCtrl
three_frames = record mono { period_frames = 3 }

write_goes_on : alsa_ctrl_write_stream stereo 300 three_moves ≡ none
unfolding alsa_ctrl_write_stream write_count is_padded silence_bytes transfer turn recover moved_by
    suspended negative resume
write_goes_on = refl

-- An abort ends the loop, and the bytes moved so far are returned; -1 is for a call behind it.
aborted :
    alsa_ctrl_read_stream stereo 14 (moving 1 ∷ record (moving 1) { abort = true } ∷ [])
    ≡ some (some 4)
unfolding alsa_ctrl_read_stream transfer turn
aborted = refl

stays_aborted : alsa_ctrl_read_stream (alsa_ctrl_abort stereo) 14 three_moves ≡ some none
unfolding alsa_ctrl_read_stream alsa_ctrl_abort
stays_aborted = refl

closed :
    alsa_ctrl_read_stream (alsa_ctrl_close (alsa_ctrl_prepare stereo)) 14 three_moves ≡ some none
unfolding alsa_ctrl_read_stream alsa_ctrl_close alsa_ctrl_prepare
closed = refl
