-- ===== src/UserFifo/Report.antt =====
-- What the writer reports.
use pc_env_vu.Base.{ℕ, ◌<◌, ◌≡◌, some, List, arith, true, length}
use pc_env_vu.FdOp.{Call, Moved}
use pc_env_vu.FifoOps.{un_fifo_ops_write}
use pc_env_vu.UserFifo.{failed, available_size, frame, user_fifo_write_str, user_fifo_write_fmt}

-- A text that fits goes out between its marks by one `un_fifo_ops_write`, and the writer reports a
-- failure whatever went out.
pub write_fmt_fails :
    (text : List ℕ) (cs : List Call) {m : Moved}
    → 0 < length text
    → length text < available_size
    → un_fifo_ops_write (frame text) cs ≡ some m
    → user_fifo_write_fmt true text cs ≡ some (failed, some m)
unfolding user_fifo_write_fmt user_fifo_write_str
write_fmt_fails text cs some_text fits e = rw e (ground arith)
