-- ===== src/FifoOps.antt =====
-- un_fifo_ops.c: writes to a FIFO in pieces of at most PIPE_BUF bytes. The lock of the handle is
-- held throughout.
pub mod Pieces
mod Tests
use pc_env_vu.Base.{
  ℕ, zero, suc, Option, none, some, List, [], ◌∷◌, ◌++◌, ltb, if◌then◌else◌, length, take, drop,
  ◌>>=◌,
}
use pc_env_vu.FdOp.{Call, Moved, un_write}

-- `PIPE_BUF` of limits.h.
abbrev pub pipe_buf : ℕ
pipe_buf = 4096

-- The loop on `xs`. The count that is returned is that of the last piece. The tests `ret < 0` are
-- left out: what `un_write` returns is a count. Each round takes a piece, so the length is fuel enough.
unfoldable pub write_pieces : (fuel : ℕ) → List ℕ → List Call → Option Moved
write_pieces zero xs cs = un_write xs cs
write_pieces (suc fuel) xs cs =
    if ltb pipe_buf (length xs)
    then (un_write (take pipe_buf xs) cs >>= λ m.
        write_pieces fuel (drop pipe_buf xs) m.calls >>= λ r.
        some (record r { bytes = m.bytes ++ r.bytes }))
    else un_write xs cs

unfoldable pub un_fifo_ops_write : List ℕ → List Call → Option Moved
unfolding write_pieces
un_fifo_ops_write xs cs = write_pieces (length xs) xs cs
