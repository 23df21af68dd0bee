-- ===== src/Queue.antt =====
-- The promise of the ring buffers: a queue of at most `capacity` bytes, oldest first.
pub mod Impl
use pc_env_vu.Base.{
  ℕ, ◌+◌, ◌≤◌, ◌≡◌, refl, Option, none, some, List, [], ◌∷◌, ◌++◌, ltb, if◌then◌else◌, length, take,
  drop,
}

-- What a client asks for: to store bytes, or to take `n` bytes.
pub data Op : Type 0 where
  put : List ℕ → Op
  get : ℕ → Op

-- The bytes that a call hands over; `none` is a refusal.
abbrev pub Reply : Type 0
Reply = Option (List ℕ)

unfoldable pub step : ℕ → List ℕ → Op → Reply × List ℕ
step capacity q (put xs) =
    if ltb capacity (length q + length xs) then (none, q) else (some [], q ++ xs)
step capacity q (get n) = if ltb (length q) n then (none, q) else (some (take n q), drop n q)

unfoldable pub run : ℕ → List ℕ → List Op → List Reply
unfolding step
run capacity q [] = []
run capacity q (op ∷ ops) = let (out, q') = step capacity q op in out ∷ run capacity q' ops

pub run-cons :
    (capacity : ℕ) (q : List ℕ) (op : Op) (ops : List Op)
    → run capacity q (op ∷ ops) ≡ (step capacity q op).0 ∷ run capacity (step capacity q op).1 ops
unfolding run
run-cons capacity q op ops = refl

-- Every call of a list of calls meets `P`.
abbrev pub All : (Op → Type 0) → List Op → Type 0
All P [] = Unit
All P (op ∷ ops) = P op × All P ops
