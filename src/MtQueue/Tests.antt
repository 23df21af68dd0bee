-- ===== src/MtQueue/Tests.antt =====
-- Runs of the queue, and its theorems at them.
use pc_env_vu.Base.{ℕ, ◌≡◌, refl, ◌↔◌, ◌⊎◌, none, some, List, [], ◌∷◌, true, false, arith}
use pc_env_vu.MtQueue.{MtQueue, returns, waits, read, read_for, write, cyc_write, back, pop_back}
use pc_env_vu.MtQueue.Calls.{
  Call, read_call, write_call, cyc_write_call, Moved, step, run, IsInOrder,
}
use pc_env_vu.MtQueue.Order.{run-IsInOrder}
use pc_env_vu.MtQueue.Waits.{read_outcomes}

-- A queue of at most two numbers.
abbrev two : MtQueue ℕ
two = record { q = []; max_count = 2; is_wait_was_exited = false }

abbrev script : List (Call ℕ)
script = read_call ∷ write_call 1 ∷ write_call 2 ∷ write_call 3 ∷ cyc_write_call 4 ∷ read_call ∷ []

-- The read waits, the third write is refused, the fourth drops the oldest.
script_runs :
    run two script
    ≡ some
        (record { entered = 1 ∷ 2 ∷ 4 ∷ []; left = 1 ∷ 2 ∷ []; after = record two { q = 4 ∷ [] } })
unfolding run step read write cyc_write
script_runs = refl

run-IsInOrder_example : (r : Moved ℕ) × (run two script ≡ some r) × IsInOrder two r
run-IsInOrder_example = run-IsInOrder script two (omega arith) (omega arith)

read_outcomes_run :
    ((two.q ≡ [])
      × (read two ≡ waits)
      × ((read_for true two ≡ returns none two)
          ↔ ((◌≡◌ true true) × (two.is_wait_was_exited ≡ true))))
    ⊎ ((x : ℕ) × (back two.q ≡ some x)
        × (read two ≡ returns x (record two { q = pop_back two.q }))
        × (read_for true two ≡ returns (some x) (record two { q = pop_back two.q })))
read_outcomes_run = read_outcomes two true
