-- ===== src/Vad/Counting.antt =====
-- How many chunks in a row turn the detector on, and off.
use pc_env_vu.Base.{
  ℕ, ◌+◌, ◌%◌, ◌≤◌, ◌<◌, ◌≡◌, refl, Bool, true, false, Option, some, List, [], ◌∷◌, ◌>>=◌, arith,
  length, Block, leb, ltb, if◌then◌else◌, zero, suc, ◌*◌, ◌^◌, ◌/◌, ap, ◌∙◌,
}
use mathlib.Core.Path.{fun_ext, subst}
use pc_env_vu.Vad.{
  unit_sums, over_times, square_at, chunk_unit_compare, Status, idel, started, speaking, finished,
  Args, is_chunk_speaking, from_idel, from_speaking, get_vad_status,
}

-- One call for each chunk, on the same settings.
unfoldable pub feed : Args → List Block → Option Args
feed a [] = some a
feed a (b ∷ bs) = get_vad_status (record a { sample = b }) >>= λ a'. feed a' bs

-- Every chunk is judged so.
abbrev pub Judged : Bool → Args → List Block → Type 0
Judged loud a [] = Unit
Judged loud a (b ∷ bs) =
    (is_chunk_speaking (record a { sample = b }) ≡ some loud) × Judged loud a bs

-- The same settings at another moment.
abbrev moment : Args → Block → Status → ℕ → Args
moment a b s c = record a { sample = b; saved_status = s; confirm_count = c }

module _ (a : Args) (b : Block) (s : Status) (c : ℕ) where
  unit_sums_same :
      (left p x y : ℕ)
      → unit_sums (moment a b s c) left p x y ≡ unit_sums (record a { sample = b }) left p x y
  unfolding unit_sums
  unit_sums_same zero p x y = refl
  unit_sums_same (suc left) p x y =
      ap (λ k. square_at b p >>= k)
        (fun_ext λ n. unit_sums_same left (p + 2) (x + n) (y + a.vad_threshold))

  over_times_same :
      (left i over : ℕ)
      → over_times (moment a b s c) left i over ≡ over_times (record a { sample = b }) left i over
  unfolding over_times chunk_unit_compare
  over_times_same zero i over = refl
  over_times_same (suc left) i over =
      rw (unit_sums_same (a.unit_bytes / 2) (i * a.unit_bytes % 2 ^ 32) 0 0) (
        ap
          (λ k.
            unit_sums (record a { sample = b }) (a.unit_bytes / 2) (i * a.unit_bytes % 2 ^ 32) 0 0
            >>= k)
          (fun_ext λ hit. over_times_same left (i + 1) (if hit then over + 1 else over)))

  speaking_same : is_chunk_speaking (moment a b s c) ≡ is_chunk_speaking (record a { sample = b })
  unfolding is_chunk_speaking
  speaking_same = rw (over_times_same (a.bytes / a.unit_bytes) 0 0)

Judged-same :
    (loud : Bool) (a : Args) (b : Block) (s : Status) (c : ℕ) (bs : List Block)
    → Judged loud a bs
    → Judged loud (moment a b s c) bs
Judged-same loud a b s c [] h = tt
Judged-same loud a b s c (x ∷ bs) h = (speaking_same a x s c ∙ h.0, Judged-same loud a b s c bs h.1)

-- Where a run of `n` alike chunks leads, from status `before`: at `limit` of them to `after`.
pub record Counted (before after : Status) (limit n : ℕ) (a : Args) : Type 0 where
  pub status : a.saved_status ≡ (if ltb n limit then before else after)
  pub count : a.confirm_count ≡ (if ltb n limit then n else 0)

lt→leb : (a b : ℕ) → b < a → leb a b ≡ false
lt→leb a b h = ground arith

idel_step :
    (a : Args) (b : Block)
    → a.saved_status ≡ idel
    → a.confirm_count < a.started_confirm_count
    → a.started_confirm_count < 256
    → is_chunk_speaking (record a { sample = b }) ≡ some true
    → get_vad_status (record a { sample = b })
      ≡ some (
          if leb a.started_confirm_count (a.confirm_count + 1)
          then moment a b started 0
          else moment a b idel (a.confirm_count + 1))
unfolding get_vad_status from_idel
idel_step a b e low small judged = ground arith

run_idel :
    (bs : List Block) (a : Args)
    → a.saved_status ≡ idel
    → a.confirm_count < a.started_confirm_count
    → a.started_confirm_count < 256
    → a.confirm_count + length bs ≤ a.started_confirm_count
    → Judged true a bs
    → (a' : Args) × (feed a bs ≡ some a')
      × Counted idel started a.started_confirm_count (a.confirm_count + length bs) a'
unfolding feed
run_idel [] a e low small fits h = (a, refl, ground arith)
run_idel (b ∷ []) a e low small fits h = (
  if leb a.started_confirm_count (a.confirm_count + 1)
      then moment a b started 0
      else moment a b idel (a.confirm_count + 1),
  ground (arith, idel_step a b e low small h.0),
  ground arith,
)
run_idel (b ∷ x ∷ bs) a e low small fits h =
    let more : a.confirm_count + 1 < a.started_confirm_count = omega arith in
    let (a', runs, counted) =
      run_idel (x ∷ bs) (moment a b idel (a.confirm_count + 1)) refl more small (omega arith)
        (Judged-same true a b idel (a.confirm_count + 1) (x ∷ bs) h.1) in
    (
      a',
      rw (idel_step a b e low small h.0, lt→leb a.started_confirm_count (a.confirm_count + 1) more)
          runs,
      subst (λ n. Counted idel started a.started_confirm_count n a')
          {x = a.confirm_count + 1 + length (x ∷ bs)} {y = a.confirm_count + length (b ∷ x ∷ bs)}
          (omega arith) counted,
    )

speaking_step :
    (a : Args) (b : Block)
    → a.saved_status ≡ speaking
    → a.confirm_count < a.finished_confirm_count
    → a.finished_confirm_count < 256
    → is_chunk_speaking (record a { sample = b }) ≡ some false
    → get_vad_status (record a { sample = b })
      ≡ some (
          if leb a.finished_confirm_count (a.confirm_count + 1)
          then moment a b finished 0
          else moment a b speaking (a.confirm_count + 1))
unfolding get_vad_status from_speaking
speaking_step a b e low small judged = ground arith

run_speaking :
    (bs : List Block) (a : Args)
    → a.saved_status ≡ speaking
    → a.confirm_count < a.finished_confirm_count
    → a.finished_confirm_count < 256
    → a.confirm_count + length bs ≤ a.finished_confirm_count
    → Judged false a bs
    → (a' : Args) × (feed a bs ≡ some a')
      × Counted speaking finished a.finished_confirm_count (a.confirm_count + length bs) a'
unfolding feed
run_speaking [] a e low small fits h = (a, refl, ground arith)
run_speaking (b ∷ []) a e low small fits h = (
  if leb a.finished_confirm_count (a.confirm_count + 1)
      then moment a b finished 0
      else moment a b speaking (a.confirm_count + 1),
  ground (arith, speaking_step a b e low small h.0),
  ground arith,
)
run_speaking (b ∷ x ∷ bs) a e low small fits h =
    let more : a.confirm_count + 1 < a.finished_confirm_count = omega arith in
    let (a', runs, counted) =
      run_speaking (x ∷ bs) (moment a b speaking (a.confirm_count + 1)) refl more small
        (omega arith) (Judged-same false a b speaking (a.confirm_count + 1) (x ∷ bs) h.1) in
    (
      a',
      rw
          (
            speaking_step a b e low small h.0,
            lt→leb a.finished_confirm_count (a.confirm_count + 1) more,
          )
          runs,
      subst (λ n. Counted speaking finished a.finished_confirm_count n a')
          {x = a.confirm_count + 1 + length (x ∷ bs)} {y = a.confirm_count + length (b ∷ x ∷ bs)}
          (omega arith) counted,
    )

-- An idle detector with no count, fed at most as many loud chunks as it asks for, all of them loud,
-- stays idle and counts them until the last one that it asks for, at which it is started.
pub feed_starts :
    (a : Args) (bs : List Block)
    → a.saved_status ≡ idel
    → a.confirm_count ≡ 0
    → 0 < a.started_confirm_count
    → a.started_confirm_count < 256
    → length bs ≤ a.started_confirm_count
    → Judged true a bs
    → (a' : Args) × (feed a bs ≡ some a')
      × Counted idel started a.started_confirm_count (length bs) a'
feed_starts a bs e zeroed least small fits h =
    let (a', runs, counted) = run_idel bs a e (omega arith) small (omega arith) h in
    (
      a',
      runs,
      subst (λ n. Counted idel started a.started_confirm_count n a')
          {x = a.confirm_count + length bs} {y = length bs} (omega arith) counted,
    )

-- A speaking detector, fed silent chunks, goes on counting from where it stands, and finishes at the
-- last one that it asks for.
pub feed_finishes :
    (a : Args) (bs : List Block)
    → a.saved_status ≡ speaking
    → a.confirm_count < a.finished_confirm_count
    → a.finished_confirm_count < 256
    → a.confirm_count + length bs ≤ a.finished_confirm_count
    → Judged false a bs
    → (a' : Args) × (feed a bs ≡ some a')
      × Counted speaking finished a.finished_confirm_count (a.confirm_count + length bs) a'
feed_finishes a bs e low small fits h = run_speaking bs a e low small fits h

-- One chunk of the other kind takes the count back to 0 and leaves the status.
pub count_broken :
    (a : Args) (loud : Bool)
    → (if loud then speaking else idel) ≡ a.saved_status
    → is_chunk_speaking a ≡ some loud
    → get_vad_status a ≡ some (record a { confirm_count = 0 })
unfolding get_vad_status from_idel from_speaking
count_broken a true e h = ground arith
count_broken a false e h = ground arith
