-- ===== src/AlsaCtrl/Whole.antt =====
-- A read or a write that is not cut short moves every frame.
use pc_env_vu.Base.{
  ℕ, suc, ◌+◌, ◌-◌, ◌*◌, ◌/◌, ◌%◌, ◌^◌, ◌≤◌, ◌<◌, ◌≡◌, refl, ap, ap₂, ◌∙◌, ◌⊎◌, inl, inr, some,
  List, [], ◌∷◌, false, arith, ◌==◌, Bool-cases,
}
use pc_env_vu.AlsaCtrl.{
  count, eagain, epipe, estrpipe, negative, AlsaCtrl, Round, resume, moves, moved_by, recover,
  suspended, turn, transfer,
}

-- A round in which nothing moves, and nothing is cut short: the device has no room, or it recovers from
-- an overrun, or from a suspension.
abbrev pub IsIdle : Round → Type 0
IsIdle r =
    (r.abort ≡ false)
    × ((r.transferred ≡ eagain)
        ⊎ ((r.transferred ≡ epipe) × (r.recovered ≡ count 0))
        ⊎ ((r.transferred ≡ estrpipe) × (resume estrpipe r.resumed ≡ some (count 0))))

-- Rounds for `c` frames, none of which is cut short, and of which `k` move some: as ALSA says, at most
-- the frames that are asked for.
pub data Steady : (c k : ℕ) → List Round → Type 0 where
  ended : (c : ℕ) → Steady c 0 []
  idle :
      (c k : ℕ) (r : Round) (rounds : List Round)
      → IsIdle r
      → Steady c k rounds
      → Steady c k (r ∷ rounds)
  advancing :
      (c k n : ℕ) (r : Round) (rounds : List Round)
      → r.abort ≡ false
      → r.transferred ≡ count n
      → 0 < n
      → n ≤ c
      → Steady (c - n) k rounds
      → Steady c (suc k) (r ∷ rounds)

turn_idle : (c : ℕ) (r : Round) → IsIdle r → turn c r ≡ some (moves 0)
unfolding turn recover moved_by suspended negative
turn_idle c r (a, inl e) = ground (arith, e)
turn_idle c r (a, inr (inl (e, f))) = ground (arith, e, f)
turn_idle c r (a, inr (inr (e, f))) = ground (arith, e, f)

turn_advancing : (c n : ℕ) (r : Round) → r.transferred ≡ count n → turn c r ≡ some (moves n)
unfolding turn
turn_advancing c n r e = rw e refl

transfer_ended : (c moved : ℕ) (rounds : List Round) → c ≡ 0 → transfer c moved rounds ≡ some moved
unfolding transfer
transfer_ended c moved [] e = ground (arith, e)
transfer_ended c moved (r ∷ rounds) e = ground (arith, e)

transfer_on :
    (c moved n : ℕ) (r : Round) (rounds : List Round)
    → 0 < c
    → c < 2 ^ 64
    → n ≤ c
    → r.abort ≡ false
    → turn c r ≡ some (moves n)
    → transfer c moved (r ∷ rounds) ≡ transfer (c - n) (moved + n) rounds
unfolding transfer
transfer_on c moved n r rounds pos word le a e =
    let some_left : (c == 0) ≡ false = ground (arith, pos) in
    let left_eq : (c + 2 ^ 64 - n) % 2 ^ 64 ≡ c - n = omega (arith, word, le) in
    rw (e, transfer) (rw some_left (rw a (rw left_eq refl)))

-- With enough rounds that move something, all of the frames are moved.
pub transfer_whole :
    (c k moved : ℕ) (rounds : List Round)
    → Steady c k rounds
    → c ≤ k
    → c < 2 ^ 64
    → transfer c moved rounds ≡ some (moved + c)
transfer_whole c k moved [] (ended _) le word =
    transfer_ended c moved [] (omega (arith, le)) ∙ ap some (omega (arith, le))
transfer_whole c k moved (r ∷ rest) (idle _ _ _ _ i s) le word = elim (Bool-cases (c == 0)) [
  | inl over ↦
      let z : c ≡ 0 = ground (arith, over) in
      transfer_ended c moved (r ∷ rest) z ∙ ap some (omega (arith, z))
  | inr more ↦
      transfer_on c moved 0 r rest (ground (arith, more)) word (omega arith) i.0 (turn_idle c r i)
      ∙ ap₂ (λ a b. transfer a b rest) (omega arith) (omega arith)
      ∙ transfer_whole c k moved rest s le word
]
transfer_whole c (suc k) moved (r ∷ rest) (advancing _ _ n _ _ a e pos few s) le word =
    transfer_on c moved n r rest (omega (arith, pos, few)) word few a (turn_advancing c n r e)
    ∙ transfer_whole (c - n) k (moved + n) rest s (omega (arith, le, pos)) (omega (arith, word))
    ∙ ap some (omega (arith, few))

pub quotient_le : (n d : ℕ) → 0 < d → n / d ≤ n
quotient_le n d pos = grind arith

-- The frames of some bytes are no more bytes.
pub frames_le : (n d : ℕ) → 0 < d → n / d * d ≤ n
frames_le n d pos = grind arith
