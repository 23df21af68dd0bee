-- ===== src/FifoOps/Tests.antt =====
-- The loss of the rest of a piece, at a write of 5,000 bytes.
use pc_env_vu.Base.{
  ℕ, zero, suc, ◌-◌, ◌≡◌, refl, ap, some, List, [], ◌∷◌, ◌++◌, arith, length, take, drop,
}
use pc_env_vu.FifoOps.{pipe_buf, un_fifo_ops_write}
use pc_env_vu.FifoOps.Pieces.{short_piece_lost}

zeros : ℕ → List ℕ
zeros zero = []
zeros (suc n) = 0 ∷ zeros n

length-zeros : (n : ℕ) → length (zeros n) ≡ n
unfolding zeros
length-zeros zero = refl
length-zeros (suc n) = ap suc (length-zeros n)

short_piece_lost_run :
    un_fifo_ops_write
      (zeros 5000)
      (record { moved = some 4000; errno = 0 } ∷ record { moved = some 904; errno = 0 } ∷ [])
    ≡ some (record {
      count = length (zeros 5000) - pipe_buf;
      bytes = take 4000 (take pipe_buf (zeros 5000)) ++ drop pipe_buf (zeros 5000);
      calls = [];
    })
short_piece_lost_run =
    short_piece_lost (zeros 5000) (record { moved = some 4000; errno = 0 })
      (record { moved = some 904; errno = 0 }) (omega (arith, length-zeros 5000))
      (omega (arith, length-zeros 5000)) (omega arith) (λ e. omega (arith, e))
      (omega (arith, length-zeros 5000))
