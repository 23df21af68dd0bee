-- ===== src/AlsaCtrl/Honest.antt =====
-- What moves where ALSA gives no more frames than it is asked for.
use pc_env_vu.Base.{
  ℕ, ◌+◌, ◌-◌, ◌%◌, ◌^◌, ◌≤◌, ◌<◌, ◌≡◌, refl, Option, none, some, List, [], ◌∷◌, ◌||◌, false, arith,
  ◌==◌, Bool-cases, inl, inr,
}
use pc_env_vu.AlsaCtrl.{Round, Turn, moves, leaves, turn, transfer}

-- No round for `c` frames moves more than are left of them.
abbrev pub IsHonest : (c : ℕ) → List Round → Type 0
IsHonest c [] = Unit
IsHonest c (r ∷ rounds) = (n : ℕ) → turn c r ≡ some (moves n) → (n ≤ c) × IsHonest (c - n) rounds

pub transfer_le :
    (c moved : ℕ) (rounds : List Round) {m : ℕ}
    → IsHonest c rounds
    → c < 2 ^ 64
    → transfer c moved rounds ≡ some m
    → m ≤ moved + c
unfolding transfer
transfer_le c moved [] h word e = ground (arith, e)
transfer_le c moved (r ∷ rounds) {m} h word e = elim (Bool-cases (c == 0 || r.abort)) [
  | inl over ↦ ground (arith, e, over)
  | inr on ↦ go (λ n. transfer_le (c - n) (moved + n) rounds) (turn c r) refl on
]
  where
    go :
        ((n : ℕ)
          → IsHonest (c - n) rounds
          → c - n < 2 ^ 64
          → transfer (c - n) (moved + n) rounds ≡ some m
          → m ≤ moved + n + (c - n))
        → (o : Option Turn) → turn c r ≡ o
        → (c == 0 || r.abort) ≡ false
        → m ≤ moved + c
    go ih none f on = absurd (ground (arith, e, f, on))
    go ih (some leaves) f on = ground (arith, e, f, on)
    go ih (some (moves n)) f on =
        let (le, h') = h n f in
        let left_eq : (c + 2 ^ 64 - n) % 2 ^ 64 ≡ c - n = omega (arith, word, le) in
        let rest : transfer (c - n) (moved + n) rounds ≡ some m =
          ground (arith, e, f, on, left_eq) in
        omega (arith, le, ih n h' (omega (arith, word)) rest)
