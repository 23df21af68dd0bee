-- ===== src/RtPlayer/Uneven.antt =====
-- A chunk of no whole number of frames.
use mathlib.Core.Path.{subst}
use pc_env_vu.Base.{
  ℕ, ◌*◌, ◌/◌, ◌+◌, ◌%◌, ◌^◌, ◌≤◌, ◌<◌, to_int, to_size, ◌≡◌, ◌≢◌, refl, sym, ap, ap₂, ◌∙◌, Option,
  some, none, List, [], ◌∷◌, ◌++◌, Bool, true, Text, arith, ◌==◌, Bool-cases, inl, inr,
}
use pc_env_vu.MtQueue
use pc_env_vu.MtQueue.{Outcome, returns, waits, undefined}
use pc_env_vu.AlsaCtrl.{AlsaCtrl, Round, transfer, alsa_ctrl_read_stream}
use pc_env_vu.AlsaCtrl.Honest.{IsHonest, transfer_le}
use pc_env_vu.AlsaCtrl.Whole.{quotient_le, frames_le}
use pc_env_vu.RtPlayer.{
  RtPlayer, Effect, silent, Step, rec_tests, rec_reads, starts, ply_tests, ply_plays, pauses,
  clears, resumes, read_chunk, play_chunk, is_at_work, step, run,
}
use pc_env_vu.RtPlayer.Flow.{IsValid, run_cons, step-Flow, Flow-IsValid}

-- What a step leaves that records nothing.
pub record IsUnrecorded (p : RtPlayer) (e : Effect) : Type 0 where
  pub none_recorded : e.recorded ≡ []
  pub flag_kept : e.after.full_flag ≡ p.full_flag
  pub device_kept : e.after.rec ≡ p.rec
  pub size_kept : e.after.chunk_bytes ≡ p.chunk_bytes

abbrev IsUnrecordedStep : RtPlayer → Option Effect → Type 0
IsUnrecordedStep p none = Unit
IsUnrecordedStep p (some e) = IsUnrecorded p e

-- A chunk is of fewer than 2 ^ 31 bytes, and of no whole number of frames.
abbrev pub IsUneven : RtPlayer → Type 0
IsUneven p = (p.chunk_bytes < 2 ^ 31) × (p.chunk_bytes % p.rec.bytes_per_frame ≢ 0)

abbrev pub chunk_frames : RtPlayer → ℕ
chunk_frames p = p.chunk_bytes / p.rec.bytes_per_frame

-- No call of ALSA gives more frames than it is asked for.
abbrev pub IsHonestStep : (c : ℕ) → Step → Type 0
IsHonestStep c rec_tests = Unit
IsHonestStep c (rec_reads rounds buf) = IsHonest c rounds
IsHonestStep c starts = Unit
IsHonestStep c ply_tests = Unit
IsHonestStep c (ply_plays expired) = Unit
IsHonestStep c pauses = Unit
IsHonestStep c clears = Unit
IsHonestStep c resumes = Unit

abbrev pub AllHonest : (c : ℕ) → List Step → Type 0
AllHonest c [] = Unit
AllHonest c (s ∷ steps) = IsHonestStep c s × AllHonest c steps

unrecorded :
    (p p' : RtPlayer) (played : List Text)
    → p'.full_flag ≡ p.full_flag
    → p'.rec ≡ p.rec
    → p'.chunk_bytes ≡ p.chunk_bytes
    → IsUnrecorded p (record { recorded = []; played = played; after = p' })
unrecorded p p' played e f g = record {
  none_recorded = refl;
  flag_kept = e;
  device_kept = f;
  size_kept = g;
}

same_number : {m n : ℕ} → (m == n) ≡ true → m ≡ n
same_number e = ground (arith, e)

product_even : (m d : ℕ) → 0 < d → (m * d) % d ≡ 0
product_even m d pos = grind arith

read_fits : (m n d : ℕ) → 0 < d → m ≤ 0 + n / d → m * d ≤ n
read_fits m n d pos le = grind (arith, frames_le n d pos)

-- What a read returns is a number of frames.
read_even :
    (a : AlsaCtrl) (bytes n : ℕ) (rounds : List Round)
    → 0 < a.bytes_per_frame
    → bytes < 2 ^ 31
    → IsHonest (bytes / a.bytes_per_frame) rounds
    → alsa_ctrl_read_stream a bytes rounds ≡ some (some n)
    → to_size n % a.bytes_per_frame ≡ 0
unfolding alsa_ctrl_read_stream
read_even a bytes n rounds pos few honest e =
    go (transfer (bytes / a.bytes_per_frame) 0 rounds) refl
  where
    go :
        (o : Option ℕ)
        → transfer (bytes / a.bytes_per_frame) 0 rounds ≡ o
        → to_size n % a.bytes_per_frame ≡ 0
    go none f = absurd (ground (arith, e, f))
    go (some m) f =
        let bytes_eq : to_int (m * a.bytes_per_frame) ≡ n = ground (arith, e, f, pos) in
        let fits = read_fits m bytes a.bytes_per_frame pos (
          transfer_le (bytes / a.bytes_per_frame) 0 rounds honest
            (omega (arith, few, quotient_le bytes a.bytes_per_frame pos)) f) in
        let n_eq : to_size n ≡ m * a.bytes_per_frame = ground (arith, bytes_eq, fits, few) in
        ap (λ k. k % a.bytes_per_frame) n_eq ∙ product_even m a.bytes_per_frame pos

read_uneven :
    (p : RtPlayer) (rounds : List Round) (buf : Text)
    → 0 < p.rec.bytes_per_frame
    → IsUneven p
    → IsHonest (chunk_frames p) rounds
    → IsUnrecordedStep p (read_chunk p rounds buf)
unfolding read_chunk
read_uneven p rounds buf pos odd honest = go (alsa_ctrl_read_stream p.rec p.chunk_bytes rounds) refl
  where
    go :
        (o : Option (Option ℕ))
        → alsa_ctrl_read_stream p.rec p.chunk_bytes rounds ≡ o
        → IsUnrecordedStep p (read_chunk p rounds buf)
    go none e = rw (e, read_chunk) (unrecorded p _ _ refl refl refl)
    go (some none) e = rw (e, read_chunk) (unrecorded p _ _ refl refl refl)
    go (some (some n)) e = elim (Bool-cases (to_size n == p.chunk_bytes)) [
      | inl whole ↦ absurd (
          odd.1 (
            ap (λ k. k % p.rec.bytes_per_frame) (sym (same_number whole))
            ∙ read_even p.rec p.chunk_bytes n rounds pos odd.0 honest e))
      | inr short ↦ rw (e, read_chunk) (rw short (unrecorded p _ _ refl refl refl))
    ]

play_unrecorded : (p : RtPlayer) (expired : Bool) → IsUnrecordedStep p (play_chunk p expired)
unfolding play_chunk
play_unrecorded p expired = go (MtQueue.read_for expired p.queue) refl
  where
    go :
        (o : Outcome Text (Option Text))
        → MtQueue.read_for expired p.queue ≡ o
        → IsUnrecordedStep p (play_chunk p expired)
    go (returns none queue) e = rw (e, play_chunk) (unrecorded p _ _ refl refl refl)
    go (returns (some chunk) queue) e = rw (e, play_chunk) (unrecorded p _ _ refl refl refl)
    go waits e = rw (e, play_chunk) (unrecorded p _ _ refl refl refl)
    go undefined e = rw (e, play_chunk) tt

step_uneven :
    (p : RtPlayer) (s : Step)
    → 0 < p.rec.bytes_per_frame
    → IsUneven p
    → IsHonestStep (chunk_frames p) s
    → IsUnrecordedStep p (step p s)
unfolding step
step_uneven p rec_tests pos odd h = unrecorded p _ _ refl refl refl
step_uneven p (rec_reads rounds buf) pos odd h = elim (Bool-cases (is_at_work p.recorder)) [
  | inl there ↦ rw there (read_uneven p rounds buf pos odd h)
  | inr elsewhere ↦ rw elsewhere (unrecorded p _ _ refl refl refl)
]
step_uneven p starts pos odd h = unrecorded p _ _ refl refl refl
step_uneven p ply_tests pos odd h = unrecorded p _ _ refl refl refl
step_uneven p (ply_plays expired) pos odd h = elim (Bool-cases (is_at_work p.player)) [
  | inl there ↦ rw there (play_unrecorded p expired)
  | inr elsewhere ↦ rw elsewhere (unrecorded p _ _ refl refl refl)
]
step_uneven p pauses pos odd h = unrecorded p _ _ refl refl refl
step_uneven p clears pos odd h = unrecorded p _ _ refl refl refl
step_uneven p resumes pos odd h = unrecorded p _ _ refl refl refl

-- From a player whose queue has a bound that is not 0 and is within it, whose frames have bytes,
-- and whose chunks are of fewer than 2^31 bytes and no whole number of frames: whatever steps
-- come, and whatever ALSA returns that is not more frames than it was asked for, nothing is
-- recorded, and the flag that lets the player start stays as it is.
pub run_uneven :
    (steps : List Step) (p : RtPlayer)
    → IsValid p
    → 0 < p.rec.bytes_per_frame
    → IsUneven p
    → AllHonest (chunk_frames p) steps
    → (e : Effect) × (run p steps ≡ some e) × IsUnrecorded p e
run_uneven [] p v pos odd h = (silent p, unfold run in refl, unrecorded p p [] refl refl refl)
run_uneven (s ∷ steps) p v pos odd h =
    let (e, e_eq, flow) = step-Flow p s v in
    let u : IsUnrecorded p e = subst (IsUnrecordedStep p) e_eq (step_uneven p s pos odd h.0) in
    let pos' : 0 < e.after.rec.bytes_per_frame =
      subst (λ a. 0 < a.bytes_per_frame) (sym u.device_kept) pos in
    let odd' : IsUneven e.after = (
      omega (arith, odd.0, u.size_kept),
      λ z. odd.1 (ap₂ (λ k a. k % a.bytes_per_frame) (sym u.size_kept) (sym u.device_kept) ∙ z),
    ) in
    let frames_kept : chunk_frames p ≡ chunk_frames e.after =
      ap₂ (λ k a. k / a.bytes_per_frame) (sym u.size_kept) (sym u.device_kept) in
    let h' : AllHonest (chunk_frames e.after) steps =
      subst (λ c. AllHonest c steps) frames_kept h.1 in
    let (r, r_eq, w) = run_uneven steps e.after (Flow-IsValid flow v) pos' odd' h' in
    (
      record {
        recorded = e.recorded ++ r.recorded;
        played = e.played ++ r.played;
        after = r.after;
      },
      run_cons p s steps e_eq r_eq,
      record {
        none_recorded = ap₂ (λ x y. x ++ y) u.none_recorded w.none_recorded;
        flag_kept = w.flag_kept ∙ u.flag_kept;
        device_kept = w.device_kept ∙ u.device_kept;
        size_kept = w.size_kept ∙ u.size_kept;
      },
    )
