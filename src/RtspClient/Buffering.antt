-- ===== src/RtspClient/Buffering.antt =====
-- CYCW: `befor` keeps the last frames.
use mathlib.Core.List.{reverse, reverse-cons, map, append_assoc, append-nil}
use mathlib.Core.Path.{subst}
use pc_env_vu.Base.{
  ℕ, ◌*◌, ◌≤◌, ◌<◌, min, ◌≡◌, refl, sym, ap, ap₂, ◌∙◌, inl, inr, ◌≢◌, none, some, List, [], ◌∷◌,
  ◌++◌, true, arith, ◌==◌, length, take, take_whole, length-take, Bool-cases, if◌then◌else◌,
}
use pc_env_vu.MtQueue
use pc_env_vu.MtQueue.Newest.{take-append-take, cyc_write-take}
use pc_env_vu.BaStream.{FrameData, BaStream, write_befor}
use pc_env_vu.RtspClient.Rounds.{pulled_first, pulled_next, handle_video, handle_other, run_cons}
use pc_env_vu.RtspClient.{
  Client, start, cycw, Packet, packet, new_stream, with_status, back_up, handle, run,
}

-- The frames of the packets of one stream.
abbrev pub videos : ℕ → List Packet → List FrameData
videos v [] = []
videos v (p ∷ ps) = if p.stream_index == v then p.data_of ∷ videos v ps else videos v ps

newest :
    (v n : ℕ) (p : Packet) (ps : List Packet) (q : List FrameData)
    → (p.stream_index == v) ≡ true
    → take n (reverse (videos v ps) ++ take n (p.data_of ∷ q))
      ≡ take n (reverse (videos v (p ∷ ps)) ++ q)
newest v n p ps q same = rw same (
    take-append-take n n (reverse (videos v ps)) (p.data_of ∷ q) (omega arith)
    ∙ ap (take n) (
        sym (append_assoc (reverse (videos v ps)) (p.data_of ∷ []) q)
        ∙ ap (λ r. r ++ q) (sym (reverse-cons p.data_of (videos v ps)))))

write_befor-take :
    (s : BaStream) (f : FrameData)
    → 0 < s.befor.max_count
    → length s.befor.q ≤ s.befor.max_count
    → write_befor s f
      ≡ some (record s { befor = record s.befor { q = take s.befor.max_count (f ∷ s.befor.q) } })
unfolding write_befor
write_befor-take s f pos few =
    let (old, e) = cyc_write-take s.befor f pos few in rw (e, write_befor) refl

-- Before the first frame.
pub record IsFresh (v : ℕ) (c : Client) : Type 0 where
  pub at_start : c.status ≡ start
  pub video_index : c.vs_idx ≡ some v
  pub none_read : c.frame ≡ none
  pub none_started : c.uploads ≡ 0

-- The queue before the event is `q`, front first.
pub record IsBuffering (v n : ℕ) (q : List FrameData) (c : Client) : Type 0 where
  pub stream : BaStream
  pub has_stream : c.vbas ≡ some stream
  pub in_cycle : c.status ≡ cycw
  pub video_index : c.vs_idx ≡ some v
  pub none_read : c.frame ≡ none
  pub none_started : c.uploads ≡ 0
  pub before_eq : stream.befor.q ≡ q
  pub after_eq : stream.after.q ≡ []
  pub before_bound : stream.befor.max_count ≡ n
  pub after_bound : stream.after.max_count ≡ n

module _ (max_size key : ℕ) where
  buffered_one :
      (v n : ℕ) (q : List FrameData) (c : Client) (f : FrameData)
      → 0 < n
      → length q ≤ n
      → IsBuffering v n q c
      → (c' : Client) × (with_status max_size key c f ≡ some c')
        × IsBuffering v n (take n (f ∷ q)) c'
  unfolding with_status back_up
  buffered_one v n q c f pos few b =
      let kept =
        write_befor-take b.stream f (omega (arith, pos, b.before_bound))
          (ground (arith, few, b.before_eq, b.before_bound)) in
      let s : BaStream = record b.stream {
        befor = record b.stream.befor { q = take b.stream.befor.max_count (f ∷ b.stream.befor.q) };
      } in
      (
        back_up (record c { vbas = some s }) f,
        ground (arith, b.in_cycle, b.has_stream, kept),
        record {
          stream = s;
          has_stream = refl;
          in_cycle = b.in_cycle;
          video_index = b.video_index;
          none_read = b.none_read;
          none_started = b.none_started;
          before_eq = ap₂ (λ k r. take k (f ∷ r)) b.before_bound b.before_eq;
          after_eq = b.after_eq;
          before_bound = b.before_bound;
          after_bound = b.after_bound;
        },
      )

  started :
      (c : Client) (v : ℕ)
      → IsFresh v c
      → IsBuffering v (min max_size (10 * c.fps)) [] (new_stream max_size key c)
  unfolding new_stream MtQueue.create
  started c v h = record {
    stream = record {
      befor = MtQueue.create max_size (10 * c.fps);
      after = MtQueue.create max_size (10 * c.fps);
    };
    has_stream = refl;
    in_cycle = refl;
    video_index = h.video_index;
    none_read = h.none_read;
    none_started = h.none_started;
    before_eq = refl;
    after_eq = refl;
    before_bound = ground arith;
    after_bound = ground arith;
  }

  buffered_video :
      (v n : ℕ) (q : List FrameData) (c : Client) (p : Packet)
      → 0 < n
      → length q ≤ n
      → (p.stream_index == v) ≡ true
      → IsBuffering v n q c
      → (c' : Client) × (handle max_size key c (packet p) ≡ some ([], c'))
        × IsBuffering v n (take n (p.data_of ∷ q)) c'
  buffered_video v n q c p pos few is_video b =
      let (c', e, b') = buffered_one v n q c p.data_of pos few b in
      (
        c',
        handle_video max_size key c p b.video_index is_video
            (pulled_next max_size key c p.data_of b.in_cycle ∙ e),
        b',
      )

  first_video :
      (v : ℕ) (c : Client) (p : Packet)
      → 0 < min max_size (10 * c.fps)
      → (p.stream_index == v) ≡ true
      → IsFresh v c
      → (c' : Client) × (handle max_size key c (packet p) ≡ some ([], c'))
        × IsBuffering v
            (min max_size (10 * c.fps))
            (take (min max_size (10 * c.fps)) (p.data_of ∷ []))
            c'
  first_video v c p pos is_video h =
      let (c', e, b') =
        buffered_one v (min max_size (10 * c.fps)) [] (new_stream max_size key c) p.data_of pos
          (omega arith) (started c v h) in
      (
        c',
        handle_video max_size key c p h.video_index is_video
            (pulled_first max_size key c p.data_of h.at_start ∙ e),
        b',
      )

  buffered_all :
      (v n : ℕ) (q : List FrameData) (c : Client) (ps : List Packet)
      → 0 < n
      → length q ≤ n
      → IsBuffering v n q c
      → (c' : Client) × (run max_size key c (map packet ps) ≡ some ([], c'))
        × IsBuffering v n (take n (reverse (videos v ps) ++ q)) c'
  buffered_all v n q c [] pos few b =
      (c, unfold run in refl, subst (λ r. IsBuffering v n r c) (sym (take_whole n q few)) b)
  buffered_all v n q c (p ∷ ps) pos few b = elim (Bool-cases (p.stream_index == v)) [
    | inl same ↦
        let (c1, e1, b1) = buffered_video v n q c p pos few same b in
        let few1 : length (take n (p.data_of ∷ q)) ≤ n =
          omega (arith, length-take n (p.data_of ∷ q)) in
        let (c2, e2, b2) = buffered_all v n (take n (p.data_of ∷ q)) c1 ps pos few1 b1 in
        (
          c2,
          run_cons max_size key c (packet p) (map packet ps) e1 e2,
          subst (λ r. IsBuffering v n r c2) (newest v n p ps q same) b2,
        )
    | inr different ↦
        let (c2, e2, b2) = buffered_all v n q c ps pos few b in
        (
          c2,
          run_cons max_size key c (packet p) (map packet ps)
              (handle_other max_size key c p b.video_index different) e2,
          rw different b2,
        )
  ]

  -- From the first packet on, `befor` holds the last frames.
  pub fresh_all :
      (v : ℕ) (c : Client) (ps : List Packet)
      → 0 < min max_size (10 * c.fps)
      → IsFresh v c
      → videos v ps ≢ []
      → (c' : Client) × (run max_size key c (map packet ps) ≡ some ([], c'))
        × IsBuffering v
            (min max_size (10 * c.fps))
            (take (min max_size (10 * c.fps)) (reverse (videos v ps)))
            c'
  fresh_all v c [] pos h has = absurd (has refl)
  fresh_all v c (p ∷ ps) pos h has = elim (Bool-cases (p.stream_index == v)) [
    | inl same ↦
        let n : ℕ = min max_size (10 * c.fps) in
        let (c1, e1, b1) = first_video v c p pos same h in
        let few1 : length (take n (p.data_of ∷ [])) ≤ n =
          omega (arith, length-take n (p.data_of ∷ [])) in
        let (c2, e2, b2) = buffered_all v n (take n (p.data_of ∷ [])) c1 ps pos few1 b1 in
        (
          c2,
          run_cons max_size key c (packet p) (map packet ps) e1 e2,
          subst (λ r. IsBuffering v n r c2) (newest v n p ps [] same ∙ ap (take n) (append-nil _))
              b2,
        )
    | inr different ↦
        let (c2, e2, b2) = fresh_all v c ps pos h (λ e. has (rw different e)) in
        (
          c2,
          run_cons max_size key c (packet p) (map packet ps)
              (handle_other max_size key c p h.video_index different) e2,
          rw different b2,
        )
  ]
