-- ===== src/RtspClient/Rounds.antt =====
-- A round of the loop, by the packet that comes and the status.
use pc_env_vu.Base.{ℕ, ◌≡◌, refl, some, [], List, ◌∷◌, ◌++◌, true, false, arith, ◌==◌}
use pc_env_vu.BaStream.{FrameData}
use pc_env_vu.RtspClient.{
  Client, start, cycw, Packet, packet, Event, new_stream, with_status, pull_video, pull_one, handle,
  run, is_index,
}

module _ (max_size key : ℕ) where
  pub pulled_first :
      (c : Client) (f : FrameData)
      → c.status ≡ start
      → pull_video max_size key c f ≡ with_status max_size key (new_stream max_size key c) f
  unfolding pull_video
  pulled_first c f e = rw e refl

  pub pulled_next :
      (c : Client) (f : FrameData)
      → c.status ≡ cycw
      → pull_video max_size key c f ≡ with_status max_size key c f
  unfolding pull_video
  pulled_next c f e = rw e refl

  pub handle_video :
      (c : Client) (p : Packet) {v : ℕ} {c' : Client}
      → c.vs_idx ≡ some v
      → (p.stream_index == v) ≡ true
      → pull_video max_size key c p.data_of ≡ some c'
      → handle max_size key c (packet p) ≡ some ([], c')
  unfolding handle pull_one is_index
  handle_video c p i e pulled = ground (arith, i, e, pulled)

  pub handle_other :
      (c : Client) (p : Packet) {v : ℕ}
      → c.vs_idx ≡ some v
      → (p.stream_index == v) ≡ false
      → handle max_size key c (packet p) ≡ some ([], c)
  unfolding handle pull_one is_index
  handle_other c p i e = ground (arith, i, e)

  pub run_cons :
      (c : Client) (e : Event) (es : List Event) {out more : _} {c' last : Client}
      → handle max_size key c e ≡ some (out, c')
      → run max_size key c' es ≡ some (more, last)
      → run max_size key c (e ∷ es) ≡ some (out ++ more, last)
  unfolding run
  run_cons c e es p q = rw (p, run) (rw q refl)
