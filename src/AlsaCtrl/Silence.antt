-- ===== src/AlsaCtrl/Silence.antt =====
-- A write of few bytes is padded behind the end of its buffer.
use pc_env_vu.Base.{
  ℕ, ◌+◌, ◌*◌, ◌/◌, ◌^◌, ◌≤◌, ◌<◌, ◌≡◌, refl, ap, ◌∙◌, to_int, int_kept, some, List, true, false,
  arith,
}
use pc_env_vu.AlsaCtrl.{
  AlsaCtrl, Round, silence_bytes, is_padded, transfer, write_count, alsa_ctrl_write_stream,
}
use pc_env_vu.AlsaCtrl.Whole.{Steady, transfer_whole, quotient_le, frames_le}

not_padded :
    (a : AlsaCtrl) (bytes : ℕ)
    → 0 < a.bytes_per_frame
    → bytes < 2 ^ 31
    → a.period_frames / a.bytes_per_frame ≤ bytes
    → is_padded a bytes ≡ false
unfolding is_padded silence_bytes
not_padded a bytes pos word many = ground arith

write_eq :
    (a : AlsaCtrl) (bytes c : ℕ) (rounds : List Round)
    → a.handle ≡ true
    → a.abort_flag ≡ false
    → 0 < a.bytes_per_frame
    → write_count a bytes ≡ c
    → transfer c 0 rounds ≡ some (0 + c)
    → alsa_ctrl_write_stream a bytes rounds ≡ some (some (to_int (c * a.bytes_per_frame)))
unfolding alsa_ctrl_write_stream
write_eq a bytes c rounds is_open running pos e f = ground (arith, is_open, running, pos, e, f)

-- A write of at least that many bytes, below 2 ^ 31, on such a device and in such rounds, of which as many
-- move some frames as the buffer has frames, sends all of the frames that the buffer holds.
pub write_stream_whole :
    (a : AlsaCtrl) (bytes k : ℕ) (rounds : List Round)
    → a.handle ≡ true
    → a.abort_flag ≡ false
    → 0 < a.bytes_per_frame
    → bytes < 2 ^ 31
    → a.period_frames / a.bytes_per_frame ≤ bytes
    → Steady (bytes / a.bytes_per_frame) k rounds
    → bytes / a.bytes_per_frame ≤ k
    → alsa_ctrl_write_stream a bytes rounds
      ≡ some (some (bytes / a.bytes_per_frame * a.bytes_per_frame))
unfolding write_count
write_stream_whole a bytes k rounds is_open running pos word many s le =
    write_eq a bytes (bytes / a.bytes_per_frame) rounds is_open running pos
      (rw (not_padded a bytes pos word many) refl)
      (transfer_whole (bytes / a.bytes_per_frame) k 0 rounds s le
        (omega (arith, word, quotient_le bytes a.bytes_per_frame pos)))
    ∙ ap (λ n. some (some n))
        (int_kept (bytes / a.bytes_per_frame * a.bytes_per_frame)
          (omega (arith, word, frames_le bytes a.bytes_per_frame pos)))
