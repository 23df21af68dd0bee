-- ===== src/RtspClient/Recording.antt =====
-- From the first packet over the signal to the upload.
use mathlib.Core.List.{reverse, map, append_assoc}
use mathlib.Core.Path.{subst}
use pc_env_vu.Base.{
  ℕ, zero, suc, ◌*◌, ◌<◌, min, ◌≡◌, refl, sym, ap, ap₂, ◌∙◌, ◌≢◌, Bool, Option, some, none, List,
  [], ◌∷◌, ◌++◌, true, false, arith, ◌==◌, bit_and, length, take, take_whole, Text,
}
use pc_env_vu.MtQueue
use pc_env_vu.MtQueue.{back}
use pc_env_vu.BaStream.{FrameData, BaStream, write_after, get_flags, get_ri_flags}
use pc_env_vu.BaStream.Bytes.{bytes_of, begun, IsFrame}
use pc_env_vu.RtspClient.{
  Client, dump, geti, Packet, packet, signal, Event, set_ba_stream_status, with_status, pull_video,
  handle, run, back_up,
}
use pc_env_vu.RtspClient.Rounds.{handle_video, run_cons}
use pc_env_vu.RtspClient.Buffering.{videos, IsFresh, IsBuffering, fresh_all}
use pc_env_vu.RtspClient.Dumping.{arrivals, IsQuiet, IsDumping, write_after-take, dumped_all}

-- The last `n` frames of a stream, oldest first.
abbrev pub last_frames : (v n : ℕ) → List Packet → List FrameData
last_frames v n ps = reverse (take n (reverse (videos v ps)))

kept_none :
    (n : ℕ) (fs : List FrameData) {x : FrameData} → back (take n (reverse fs)) ≡ some x → fs ≢ []
kept_none zero fs b e = absurd (ground (arith, b))
kept_none (suc n) [] b e = absurd (ground (arith, b))
kept_none (suc n) (f ∷ fs) b e = absurd (ground (arith, e))

module _ (max_size key : ℕ) where
  run_split :
      (c : Client) (e : Event) (es : List Event) {out : Text} {c' : Client}
      → run max_size key c (e ∷ es) ≡ some (out, c')
      → (o more : Text) × (c1 : Client) × (handle max_size key c e ≡ some (o, c1))
        × (run max_size key c1 es ≡ some (more, c'))
        × (o ++ more ≡ out)
  unfolding run
  run_split c e es {out} {c'} p = go (handle max_size key c e) refl
    where
      Split : Type 0
      Split =
          (o more : Text) × (c1 : Client) × (handle max_size key c e ≡ some (o, c1))
          × (run max_size key c1 es ≡ some (more, c'))
          × (o ++ more ≡ out)

      inner :
          (o : Text) (c1 : Client) (r : Option (Text × Client))
          → handle max_size key c e ≡ some (o, c1)
          → run max_size key c1 es ≡ r
          → Split
      inner o c1 none h k = absurd (ground (arith, p, h, k))
      inner o c1 (some (more, c2)) h k =
          (o, more, c1, h, ground (arith, p, h, k), ground (arith, p, h, k))

      go : (r : Option (Text × Client)) → handle max_size key c e ≡ r → Split
      go none h = absurd (ground (arith, p, h))
      go (some (o, c1)) h = inner o c1 (run max_size key c1 es) h refl

  run_append :
      (c : Client) (es fs : List Event) {out more : Text} {c' last : Client}
      → run max_size key c es ≡ some (out, c')
      → run max_size key c' fs ≡ some (more, last)
      → run max_size key c (es ++ fs) ≡ some (out ++ more, last)
  run_append c [] fs {out} {more} {c'} {last} p q = unfold run in ground (arith, p, q)
  run_append c (e ∷ es) fs {out} {more} {c'} {last} p q =
      let (o, o2, c1, h, k, eq) = run_split c e es p in
      run_cons max_size key c e (es ++ fs) h (run_append c1 es fs k q)
      ∙ ap (λ t. some (t, last)) (sym (append_assoc o o2 more) ∙ ap (λ t. t ++ more) eq)

  geti_eq :
      (c : Client) (f : FrameData) (ok : Bool) {s s' : BaStream}
      → c.status ≡ geti
      → c.vbas ≡ some s
      → (bit_and (get_ri_flags s) key == 0) ≡ false
      → write_after s f ≡ (ok, s')
      → pull_video max_size key c f
        ≡ some (back_up (record c { status = dump; vbas = some s'; uploads = suc c.uploads }) f)
  unfolding pull_video with_status
  geti_eq c f ok i h flagged e = ground (arith, i, h, flagged, e)

  upload_starts :
      (v n : ℕ) (q : List FrameData) (c : Client) (f : FrameData) {oldest : FrameData}
      → 0 < n
      → back q ≡ some oldest
      → (bit_and (length oldest.bytes) key == 0) ≡ false
      → IsBuffering v n q c
      → (c' : Client) × (pull_video max_size key (set_ba_stream_status c) f ≡ some c')
        × IsDumping v n (bytes_of (reverse q)) (f ∷ []) c'
  unfolding set_ba_stream_status back_up get_ri_flags get_flags MtQueue.get
  upload_starts v n q c f {oldest} pos b flagged h =
      let (ok, q', e, r) = write_after-take h.stream f (ground (arith, h.after_eq)) in
      let s : BaStream = record h.stream { after = record h.stream.after { q = q' } } in
      (
        back_up (record c { status = dump; vbas = some s; uploads = suc c.uploads }) f,
        geti_eq (set_ba_stream_status c) f ok refl h.has_stream
            (ground (arith, b, flagged, h.before_eq)) e,
        record {
          stream = s;
          has_stream = refl;
          in_dump = refl;
          one_upload = ap suc h.none_started;
          video_index = h.video_index;
          valid = subst (λ o. IsFrame o c.ri c.ctx) (sym h.none_read) tt;
          pending_eq = ap₂ (λ o l. begun o c.ri ++ bytes_of (reverse l)) h.none_read h.before_eq;
          after_eq =
              r
              ∙ ap₂ (λ k l. take k (reverse l ++ (f ∷ []))) h.after_bound h.after_eq
              ∙ take_whole n (f ∷ []) (omega (arith, pos));
          after_bound = h.after_bound;
        },
      )

  run_signal :
      (c : Client) (p : Packet) (es : List Event) {v : ℕ} {c' last : Client} {out : Text}
      → c.vs_idx ≡ some v
      → (p.stream_index == v) ≡ true
      → pull_video max_size key (set_ba_stream_status c) p.data_of ≡ some c'
      → run max_size key c' es ≡ some (out, last)
      → run max_size key c (signal ∷ packet p ∷ es) ≡ some (out, last)
  unfolding handle set_ba_stream_status
  run_signal c p es i same pulled rest = run_cons max_size key c signal (packet p ∷ es) refl (
      run_cons max_size key (set_ba_stream_status c) (packet p) es
        (handle_video max_size key (set_ba_stream_status c) p i same pulled) rest)

  -- Packets that come before a signal, a video packet behind it, at which the size of the oldest frame
  -- kept has the bit that is tested, and then packets and calls of the read function in any order, with no
  -- second signal: from a fresh client of an index `v`, whose queues have room, nothing faults.
  -- What is uploaded, followed by what is still pending, are the bytes of the last frames before the
  -- signal, and no others; the client stays in DUMP with one upload, and `after` keeps the first frames
  -- from the signal on.
  pub record_event :
      (v : ℕ) (c : Client) (before : List Packet) (p : Packet) (es : List Event)
      {oldest : FrameData}
      → IsFresh v c
      → 0 < min max_size (10 * c.fps)
      → back (take (min max_size (10 * c.fps)) (reverse (videos v before))) ≡ some oldest
      → (bit_and (length oldest.bytes) key == 0) ≡ false
      → (p.stream_index == v) ≡ true
      → IsQuiet es
      → (out rest : Text) × (c' : Client) × (run max_size key c
            (map packet before ++ (signal ∷ packet p ∷ es))
          ≡ some (out, c'))
        × (out ++ rest ≡ bytes_of (last_frames v (min max_size (10 * c.fps)) before))
        × IsDumping v
            (min max_size (10 * c.fps))
            rest
            (take (min max_size (10 * c.fps)) (p.data_of ∷ arrivals v es))
            c'
  record_event v c before p es {oldest} fresh pos b flagged same quiet =
      let n : ℕ = min max_size (10 * c.fps) in
      let (c1, run1, buffering) =
        fresh_all max_size key v c before pos fresh (kept_none n (videos v before) b) in
      let (c2, pulled, dumping) =
        upload_starts v n (take n (reverse (videos v before))) c1 p.data_of pos b flagged
          buffering in
      let (out, rest, c3, run3, eq, last) =
        dumped_all max_size key v n (bytes_of (last_frames v n before)) (p.data_of ∷ []) c2 es
          (omega (arith, pos)) quiet dumping in
      (
        out,
        rest,
        c3,
        run_append c (map packet before) (signal ∷ packet p ∷ es) run1
            (run_signal c1 p es buffering.video_index same pulled run3),
        eq,
        last,
      )
