-- ===== src/BaStream/Bytes.antt =====
-- The bytes of the frames come out in order.
use mathlib.Core.Path.{subst}
use mathlib.Core.List.{append_assoc, reverse}
use pc_env_vu.Base.{
  ℕ, ◌+◌, ◌-◌, ◌<◌, ◌≡◌, ◌≢◌, refl, sym, ap, ◌∙◌, ◌⊎◌, inl, inr, Option, none, some, List, [], ◌∷◌,
  ◌++◌, Bool, true, false, arith, ◌==◌, ltb, length, take, drop, Text, Bool-cases, take-append-drop,
  length-drop, drop-drop, take_whole,
}
use pc_env_vu.MtQueue
use pc_env_vu.MtQueue.{MtQueue, back, pop_back, returns, waits}
use pc_env_vu.MtQueue.Order.{reverse-back}
use pc_env_vu.BaStream.{FrameData, BaStream, read_one, Reading, read_frame, read_buf, read_bufs}

-- The bytes of frames, one behind the other.
abbrev pub bytes_of : List FrameData → Text
bytes_of [] = []
bytes_of (f ∷ fs) = f.bytes ++ bytes_of fs

abbrev pub waiting : BaStream → Text
waiting s = bytes_of (reverse s.befor.q)

abbrev pub begun : Option FrameData → ℕ → Text
begun none ri = []
begun (some f) ri = drop ri f.bytes

-- What has not been read: the rest of the frame that is being read, and the frames in `befor`.
abbrev pub pending : Reading → Text
pending r = begun r.frame r.ri ++ waiting r.stream

abbrev pub IsFrame : Option FrameData → ℕ → ℕ → Type 0
IsFrame none ri ctx = Unit
IsFrame (some f) ri ctx = ri + ctx ≡ length f.bytes

abbrev pub IsValid : Reading → Type 0
IsValid r = IsFrame r.frame r.ri r.ctx

back-cons-none : {A : Type 0} (x : A) (q : List A) → back (x ∷ q) ≢ none
back-cons-none x [] e = absurd (ground arith)
back-cons-none x (y ∷ q) e = back-cons-none y q e

-- The bytes that come out, and what is pending then, are what was pending.
pub record IsPart (before : Text) (out : Text) (r : Reading) : Type 0 where
  pub bytes_eq : out ++ pending r ≡ before
  pub valid : IsValid r

frame_kept :
    (f : FrameData) (r : Reading) (size : ℕ)
    → r.ri + r.ctx ≡ length f.bytes
    → size < r.ctx
    → IsPart
        (drop r.ri f.bytes ++ waiting r.stream)
        (take size (drop r.ri f.bytes))
        (record r { frame = some f; ri = r.ri + size; ctx = r.ctx - size })
frame_kept f r size v lt = record {
  bytes_eq =
      sym (
        append_assoc (take size (drop r.ri f.bytes)) (drop (r.ri + size) f.bytes)
          (waiting r.stream))
      ∙ ap (λ t. (take size (drop r.ri f.bytes) ++ t) ++ waiting r.stream)
          (sym (drop-drop r.ri size f.bytes))
      ∙ ap (λ t. t ++ waiting r.stream) (take-append-drop size (drop r.ri f.bytes));
  valid = omega (arith, v, lt);
}

frame_done :
    (f : FrameData) (r : Reading)
    → r.ri + r.ctx ≡ length f.bytes
    → IsPart
        (drop r.ri f.bytes ++ waiting r.stream)
        (take r.ctx (drop r.ri f.bytes))
        (record r { frame = none; ri = r.ri + r.ctx; ctx = r.ctx - r.ctx })
frame_done f r v = record {
  bytes_eq =
      ap (λ t. t ++ waiting r.stream)
        (take_whole r.ctx (drop r.ri f.bytes) (omega (arith, v, length-drop r.ri f.bytes)));
  valid = tt;
}

read_frame-IsPart :
    (f : FrameData) (r : Reading) (size : ℕ)
    → r.ri + r.ctx ≡ length f.bytes
    → IsPart (drop r.ri f.bytes ++ waiting r.stream) (read_frame f r size).0 (read_frame f r size).1
unfolding read_frame
read_frame-IsPart f r size v = elim (Bool-cases (ltb size r.ctx)) [
  | inl less ↦
      let more : (r.ctx - size == 0) ≡ false = ground (arith, less) in
      rw less (rw more (frame_kept f r size v (ground (arith, less))))
  | inr rest ↦
      let over : (r.ctx - r.ctx == 0) ≡ true = ground arith in rw rest (rw over (frame_done f r v))
]

-- What a call of `readOne` comes to.
read_one_cases :
    (s : BaStream)
    → ((read_one s ≡ none) × (waiting s ≡ []))
      ⊎ ((f : FrameData) × (s' : BaStream) × (read_one s ≡ some (f, s'))
          × (waiting s ≡ f.bytes ++ waiting s'))
unfolding read_one MtQueue.read
read_one_cases s = go s.befor.q (back s.befor.q) refl refl
  where
    go :
        (q : List FrameData) (o : Option FrameData)
        → s.befor.q ≡ q
        → back s.befor.q ≡ o
        → ((read_one s ≡ none) × (waiting s ≡ []))
          ⊎ ((f : FrameData) × (s' : BaStream) × (read_one s ≡ some (f, s'))
              × (waiting s ≡ f.bytes ++ waiting s'))
    go q (some f) e b = inr (
      f,
      record s { befor = record s.befor { q = pop_back s.befor.q } },
      ground (arith, b),
      ap bytes_of (reverse-back s.befor.q b),
    )
    go [] none e b = inl (ground (arith, b), ap (λ l. bytes_of (reverse l)) e)
    go (x ∷ q) none e b = absurd (back-cons-none x q (ap back (sym e) ∙ b))

-- What a call of `readBuf` comes to: it waits, and nothing is pending, or it copies a part.
pub read_buf_cases :
    (r : Reading) (size : ℕ)
    → IsValid r
    → ((read_buf r size ≡ none) × (pending r ≡ []))
      ⊎ ((out : Text) × (r' : Reading) × (read_buf r size ≡ some (out, r'))
          × IsPart (pending r) out r')
unfolding read_buf
read_buf_cases r size v = by_frame r.frame refl v
  where
    with_next :
        ((read_one r.stream ≡ none) × (waiting r.stream ≡ []))
          ⊎ ((f : FrameData) × (s' : BaStream) × (read_one r.stream ≡ some (f, s'))
              × (waiting r.stream ≡ f.bytes ++ waiting s'))
        → r.frame ≡ none
        → ((read_buf r size ≡ none) × (pending r ≡ []))
          ⊎ ((out : Text) × (r' : Reading) × (read_buf r size ≡ some (out, r'))
              × IsPart (pending r) out r')
    with_next (inl (q, w)) e =
        inl (ground (arith, e, q), ap (λ o. begun o r.ri ++ waiting r.stream) e ∙ w)
    with_next (inr (f, s', q, w)) e =
        let next : Reading = record { stream = s'; frame = some f; ri = 0; ctx = length f.bytes } in
        let part = read_frame-IsPart f next size (omega arith) in
        let out = read_frame f next size in
        inr (
          out.0,
          out.1,
          ground (arith, e, q),
          record {
            bytes_eq = part.bytes_eq ∙ sym w ∙ sym (ap (λ o. begun o r.ri ++ waiting r.stream) e);
            valid = part.valid;
          },
        )

    by_frame :
        (o : Option FrameData)
        → r.frame ≡ o
        → IsFrame o r.ri r.ctx
        → ((read_buf r size ≡ none) × (pending r ≡ []))
          ⊎ ((out : Text) × (r' : Reading) × (read_buf r size ≡ some (out, r'))
              × IsPart (pending r) out r')
    by_frame none e v = with_next (read_one_cases r.stream) e
    by_frame (some f) e v =
        let part = read_frame-IsPart f r size v in
        let out = read_frame f r size in
        inr (
          out.0,
          out.1,
          ground (arith, e),
          record {
            bytes_eq = part.bytes_eq ∙ sym (ap (λ o. begun o r.ri ++ waiting r.stream) e);
            valid = part.valid;
          },
        )

-- A call leaves the frames behind the event where they are.
pub read_buf_after :
    (r : Reading) (size : ℕ) {out : Text} {r' : Reading}
    → read_buf r size ≡ some (out, r')
    → r'.stream.after ≡ r.stream.after
unfolding read_buf read_frame read_one MtQueue.read
read_buf_after r size e = ground (arith, e)

read_bufs_stop :
    (r : Reading) (size : ℕ) (sizes : List ℕ)
    → read_buf r size ≡ none
    → read_bufs r (size ∷ sizes) ≡ ([], r, true)
unfolding read_bufs
read_bufs_stop r size sizes e = rw (e, read_bufs) refl

read_bufs_go_on :
    (r : Reading) (size : ℕ) (sizes : List ℕ) {bytes : Text} {r' : Reading}
    → read_buf r size ≡ some (bytes, r')
    → read_bufs r (size ∷ sizes)
      ≡ (bytes ++ (read_bufs r' sizes).0, (read_bufs r' sizes).1, (read_bufs r' sizes).2)
unfolding read_bufs
read_bufs_go_on r size sizes e = rw (e, read_bufs) refl

-- The bytes that come out of calls, with what is still pending; and whether they stopped at a wait.
abbrev Comes : Text → Text × Reading × Bool → Type 0
Comes before (out, last, waited) =
    (out ++ pending last ≡ before) × ((waited ≡ false) ⊎ (pending last ≡ []))

-- Whatever the sizes of the buffers, the bytes that calls of `readBuf` copy, followed by those that are
-- still pending, are the bytes of the frames before the event, in order, none lost or twice; and a call
-- waits only where nothing is pending.
pub read_bufs-pending :
    (sizes : List ℕ) (r : Reading)
    → IsValid r
    → ((read_bufs r sizes).0 ++ pending (read_bufs r sizes).1 ≡ pending r)
      × (((read_bufs r sizes).2 ≡ false) ⊎ (pending (read_bufs r sizes).1 ≡ []))
read_bufs-pending [] r v = unfold read_bufs in (refl, inl refl)
read_bufs-pending (size ∷ sizes) r v = elim (read_buf_cases r size v) [
  | inl (e, none_left) ↦
      subst (Comes (pending r)) (sym (read_bufs_stop r size sizes e)) (refl, inr none_left)
  | inr (bytes, r', e, part) ↦
      let (eq, ends) = read_bufs-pending sizes r' part.valid in
      subst (Comes (pending r)) (sym (read_bufs_go_on r size sizes e)) (
        append_assoc bytes (read_bufs r' sizes).0 (pending (read_bufs r' sizes).1)
            ∙ ap (λ t. bytes ++ t) eq
            ∙ part.bytes_eq,
        ends,
      )
]
