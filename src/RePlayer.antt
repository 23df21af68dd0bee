-- ===== src/RePlayer.antt =====
-- RePlayer (package/app/CPPBox/src/RePlayer): a thread that reads a chunk from a sound device and writes it
-- to another. What ALSA returns is an argument, for each of the two loops of AlsaCtrl.
pub mod Passes
mod Tests
use pc_env_vu.Base.{to_size, ℕ, Option, none, some, List, Bool, true, false, ◌==◌, if◌then◌else◌}
use pc_env_vu.AlsaCtrl.{AlsaCtrl, Round, alsa_ctrl_read_stream, alsa_ctrl_write_stream}

pub record RePlayer : Type 0 where
  pub rec : AlsaCtrl
  pub ply : AlsaCtrl
  pub pause_flag : Bool
  pub chunk_bytes : ℕ

-- What a round of the loop comes to: it sleeps, it resets the device that is read, or the one that is
-- written, or it has passed a chunk on.
pub data Pass : Type 0 where
  sleeps resets_rec resets_ply : Pass
  passes : (bytes : ℕ) → Pass

-- The write of what was read, and its test; `none` is a write that does not return.
unfoldable pub replay_chunk : RePlayer → (rret : ℕ) → List Round → Option Pass
replay_chunk p rret writes = elim (alsa_ctrl_write_stream p.ply rret writes) [
  | none ↦ none
  | some none ↦ some resets_ply
  | some (some wret) ↦ if to_size wret == rret then some (passes rret) else some resets_ply
]

-- A round of the loop of the thread; `none` is a read or a write that does not
-- return.
unfoldable pub replay : RePlayer → (reads writes : List Round) → Option Pass
replay p reads writes =
    if p.pause_flag then some sleeps else elim (alsa_ctrl_read_stream p.rec p.chunk_bytes reads) [
      | none ↦ none
      | some none ↦ some resets_rec
      | some (some rret) ↦
          if to_size rret == p.chunk_bytes
          then replay_chunk p (to_size rret) writes
          else some resets_rec
    ]
