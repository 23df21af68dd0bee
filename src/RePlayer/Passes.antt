-- ===== src/RePlayer/Passes.antt =====
-- A chunk that fits both devices is passed on whole.
use pc_env_vu.Base.{◌%◌, ◌^◌, ◌<◌, ◌≡◌, true, false}
use pc_env_vu.RePlayer.{RePlayer}

-- The loop is not paused, both devices are open, and a chunk is a whole number of the frames of each.
pub record IsReady (p : RePlayer) : Type 0 where
  pub running : p.pause_flag ≡ false
  pub rec_open : p.rec.handle ≡ true
  pub rec_running : p.rec.abort_flag ≡ false
  pub ply_open : p.ply.handle ≡ true
  pub ply_running : p.ply.abort_flag ≡ false
  pub rec_frames : 0 < p.rec.bytes_per_frame
  pub ply_frames : 0 < p.ply.bytes_per_frame
  pub rec_even : p.chunk_bytes % p.rec.bytes_per_frame ≡ 0
  pub ply_even : p.chunk_bytes % p.ply.bytes_per_frame ≡ 0
  pub word : p.chunk_bytes < 2 ^ 31
