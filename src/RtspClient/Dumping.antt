-- ===== src/RtspClient/Dumping.antt =====
-- DUMP: an upload gets the frames before the event, and the stream is never left.
use mathlib.Core.List.{reverse, append_assoc, append-nil}
use mathlib.Core.Path.{subst}
use pc_env_vu.Base.{
  ℕ, ◌*◌, ◌≤◌, ◌≡◌, refl, sym, ap, ap₂, ◌∙◌, inl, inr, some, List, [], ◌∷◌, ◌++◌, Bool, true, false,
  arith, ◌==◌, length, take, take_whole, length-take, Bool-cases, if◌then◌else◌, Text,
}
use pc_env_vu.MtQueue.Newest.{take-take_append, write-take, length-reverse}
use pc_env_vu.BaStream.{FrameData, BaStream, write_after}
use pc_env_vu.BaStream.Bytes.{pending, IsValid, read_buf_cases, read_buf_after}
use pc_env_vu.RtspClient.{
  Client, dump, packet, signal, upload, Event, reading, with_status, pull_video, read_callback,
  handle, run, int_of,
}
use pc_env_vu.RtspClient.Rounds.{handle_video, handle_other, run_cons}
use pc_env_vu.RtspClient.Buffering.{}

-- The frames of the packets of one stream among events.
abbrev pub arrivals : ℕ → List Event → List FrameData
arrivals v [] = []
arrivals v (packet p ∷ es) =
    if p.stream_index == v then p.data_of ∷ arrivals v es else arrivals v es
arrivals v (signal ∷ es) = arrivals v es
arrivals v (upload size nmemb ∷ es) = arrivals v es

-- No signal is among the events.
abbrev pub IsQuiet : List Event → Type 0
IsQuiet [] = Unit
IsQuiet (packet p ∷ es) = IsQuiet es
IsQuiet (signal ∷ es) = ⊥
IsQuiet (upload size nmemb ∷ es) = IsQuiet es

-- In DUMP with one upload: `text` is still to be read, and `q` is in `after`, oldest first.
pub record IsDumping (v n : ℕ) (text : Text) (q : List FrameData) (c : Client) : Type 0 where
  pub stream : BaStream
  pub has_stream : c.vbas ≡ some stream
  pub in_dump : c.status ≡ dump
  pub one_upload : c.uploads ≡ 1
  pub video_index : c.vs_idx ≡ some v
  pub valid : IsValid (reading c stream)
  pub pending_eq : pending (reading c stream) ≡ text
  pub after_eq : reverse stream.after.q ≡ q
  pub after_bound : stream.after.max_count ≡ n

pub write_after-take :
    (s : BaStream) (f : FrameData)
    → length s.after.q ≤ s.after.max_count
    → (ok : Bool) × (q : List FrameData) × (write_after s f
        ≡ (ok, record s { after = record s.after { q = q } }))
      × (reverse q ≡ take s.after.max_count (reverse s.after.q ++ (f ∷ [])))
unfolding write_after
write_after-take s f few =
    let (ok, q, e, r) = write-take s.after f few in (ok, q, rw (e, write_after) refl, r)

IsQuiet-cons :
    (e : Event) (es : List Event)
    → IsQuiet (e ∷ es)
    → IsQuiet (e ∷ [])
      × IsQuiet es
      × ((v : ℕ) → arrivals v (e ∷ []) ++ arrivals v es ≡ arrivals v (e ∷ es))
IsQuiet-cons (packet p) es quiet = (tt, quiet, λ v. ground arith)
IsQuiet-cons signal es quiet = elim quiet [ ]
IsQuiet-cons (upload size nmemb) es quiet = (tt, quiet, λ v. refl)

module _ (max_size key : ℕ) where
  dumped_eq :
      (c : Client) (f : FrameData) (ok : Bool) {s s' : BaStream}
      → c.status ≡ dump
      → c.vbas ≡ some s
      → write_after s f ≡ (ok, s')
      → pull_video max_size key c f ≡ some (record c { vbas = some s' })
  unfolding pull_video with_status int_of
  dumped_eq c f true i h e = ground (arith, i, h, e)
  dumped_eq c f false i h e = ground (arith, i, h, e)

  dumped_video :
      (v n : ℕ) (text : Text) (q : List FrameData) (c : Client) (f : FrameData)
      → length q ≤ n
      → IsDumping v n text q c
      → (c' : Client) × (pull_video max_size key c f ≡ some c')
        × IsDumping v n text (take n (q ++ (f ∷ []))) c'
  dumped_video v n text q c f few d =
      let (ok, q', e, r) =
        write_after-take d.stream f
          (ground (arith, few, d.after_eq, d.after_bound, length-reverse d.stream.after.q)) in
      let s : BaStream = record d.stream { after = record d.stream.after { q = q' } } in
      (
        record c { vbas = some s },
        dumped_eq c f ok (d.in_dump) (d.has_stream) e,
        record {
          stream = s;
          has_stream = refl;
          in_dump = d.in_dump;
          one_upload = d.one_upload;
          video_index = d.video_index;
          valid = d.valid;
          pending_eq = d.pending_eq;
          after_eq = r ∙ ap₂ (λ k l. take k (l ++ (f ∷ []))) d.after_bound d.after_eq;
          after_bound = d.after_bound;
        },
      )

  dumped_read :
      (v n : ℕ) (text : Text) (q : List FrameData) (c : Client) (size nmemb : ℕ)
      → IsDumping v n text q c
      → (out rest : Text) × (c' : Client) × (read_callback max_size key c size nmemb
          ≡ some (out, c'))
        × (out ++ rest ≡ text)
        × IsDumping v n rest q c'
  unfolding read_callback
  dumped_read v n text q c size nmemb d =
      elim (read_buf_cases (reading c d.stream) (size * nmemb) d.valid) [
        | inl (e, none_left) ↦ ([], text, c, ground (arith, e, d.has_stream), refl, d)
        | inr (out, r, e, part) ↦ (
          out,
          pending r,
          record c { vbas = some r.stream; frame = r.frame; ri = r.ri; ctx = r.ctx },
          ground (arith, e, d.has_stream),
          part.bytes_eq ∙ d.pending_eq,
          record {
            stream = r.stream;
            has_stream = refl;
            in_dump = d.in_dump;
            one_upload = d.one_upload;
            video_index = d.video_index;
            valid = part.valid;
            pending_eq = refl;
            after_eq =
                ap (λ m. reverse m.q) (read_buf_after (reading c d.stream) (size * nmemb) e)
                ∙ d.after_eq;
            after_bound =
                ap (λ m. m.max_count) (read_buf_after (reading c d.stream) (size * nmemb) e)
                ∙ d.after_bound;
          },
        )
      ]

  dumped_one :
      (v n : ℕ) (text : Text) (q : List FrameData) (c : Client) (e : Event)
      → length q ≤ n
      → IsQuiet (e ∷ [])
      → IsDumping v n text q c
      → (out rest : Text) × (c' : Client) × (handle max_size key c e ≡ some (out, c'))
        × (out ++ rest ≡ text)
        × IsDumping v n rest (take n (q ++ arrivals v (e ∷ []))) c'
  unfolding handle
  dumped_one v n text q c (packet p) few quiet d = elim (Bool-cases (p.stream_index == v)) [
    | inl same ↦
        let (c', e, d') = dumped_video v n text q c p.data_of few d in
        ([], text, c', handle_video max_size key c p d.video_index same e, refl, rw same d')
    | inr different ↦ (
      [],
      text,
      c,
      handle_other max_size key c p d.video_index different,
      refl,
      rw different (
          subst (λ r. IsDumping v n text r c)
            (sym (take_whole n q few) ∙ ap (take n) (sym (append-nil q))) d),
    )
  ]
  dumped_one v n text q c signal few quiet d = elim quiet [ ]
  dumped_one v n text q c (upload size nmemb) few quiet d =
      let (out, rest, c', e, f, d') = dumped_read v n text q c size nmemb d in
      (
        out,
        rest,
        c',
        e,
        f,
        subst (λ r. IsDumping v n rest r c')
            (sym (take_whole n q few) ∙ ap (take n) (sym (append-nil q))) d',
      )

  pub dumped_all :
      (v n : ℕ) (text : Text) (q : List FrameData) (c : Client) (es : List Event)
      → length q ≤ n
      → IsQuiet es
      → IsDumping v n text q c
      → (out rest : Text) × (c' : Client) × (run max_size key c es ≡ some (out, c'))
        × (out ++ rest ≡ text)
        × IsDumping v n rest (take n (q ++ arrivals v es)) c'
  dumped_all v n text q c [] few quiet d = (
    [],
    text,
    c,
    unfold run in refl,
    refl,
    subst (λ r. IsDumping v n text r c)
        (sym (take_whole n q few) ∙ ap (take n) (sym (append-nil q))) d,
  )
  dumped_all v n text q c (e ∷ es) few quiet d =
      let (quiet1, quiet2, split) = IsQuiet-cons e es quiet in
      let (out, rest, c1, run1, eq1, d1) = dumped_one v n text q c e few quiet1 d in
      let few1 : length (take n (q ++ arrivals v (e ∷ []))) ≤ n =
        omega (arith, length-take n (q ++ arrivals v (e ∷ []))) in
      let (more, last, c2, run2, eq2, d2) =
        dumped_all v n rest (take n (q ++ arrivals v (e ∷ []))) c1 es few1 quiet2 d1 in
      (
        out ++ more,
        last,
        c2,
        run_cons max_size key c e es run1 run2,
        append_assoc out more last ∙ ap (λ r. out ++ r) eq2 ∙ eq1,
        subst (λ r. IsDumping v n last r c2)
            (take-take_append n (q ++ arrivals v (e ∷ [])) (arrivals v es)
              ∙ ap (take n) (
                  append_assoc q (arrivals v (e ∷ [])) (arrivals v es)
                  ∙ ap (λ r. q ++ r) (split v)))
            d2,
      )
