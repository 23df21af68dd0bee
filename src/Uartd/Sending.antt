-- ===== src/Uartd/Sending.antt =====
-- What is to be sent goes out.
use pc_env_vu.Base.{
  ℕ, zero, suc, ◌≤◌, ◌≡◌, refl, ap, Option, some, none, List, [], ◌∷◌, arith, length, drop,
  length-drop, take-append-drop, Text,
}
use pc_env_vu.Uartd.{hard_write}

-- How many calls move bytes.
abbrev pub moving : List (Option ℕ) → ℕ
moving [] = 0
moving (none ∷ answers) = moving answers
moving (some zero ∷ answers) = moving answers
moving (some (suc res) ∷ answers) = suc (moving answers)

-- Where as many of the calls of `write` move bytes as the text has, however few at a time and with
-- whatever failures between, the loop ends, and the text has gone out, whole and in order.
pub hard_write_ends :
    (answers : List (Option ℕ)) (cmd : Text)
    → length cmd ≤ moving answers
    → (left : List (Option ℕ)) × (hard_write cmd answers ≡ some (cmd, left))
unfolding hard_write
hard_write_ends answers [] enough = (answers, refl)
hard_write_ends [] (c ∷ cmd) enough = absurd (omega (arith, enough))
hard_write_ends (none ∷ answers) (c ∷ cmd) enough = hard_write_ends answers (c ∷ cmd) enough
hard_write_ends (some zero ∷ answers) (c ∷ cmd) enough =
    let (left, e) = hard_write_ends answers (c ∷ cmd) enough in (left, rw e refl)
hard_write_ends (some (suc res) ∷ answers) (c ∷ cmd) enough =
    let (left, e) =
      hard_write_ends answers (drop res cmd) (omega (arith, enough, length-drop res cmd)) in
    (left, rw e (ap (λ t. some (c ∷ t, left)) (take-append-drop res cmd)))
