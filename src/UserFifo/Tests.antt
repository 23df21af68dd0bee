-- ===== src/UserFifo/Tests.antt =====
-- Runs of the reader and the writer, and the theorems at them.
use pc_env_vu.Base.{split_at, ◌≡◌, refl, some, List, [], ◌∷◌, arith, true, false, ◌++◌}
use pc_env_vu.FdOp.{Moved, un_write}
use pc_env_vu.FifoOps.{un_fifo_ops_write}
use pc_env_vu.UserFifo.{
  failed, Entry, failure, user_fifo_cmd_handle, prefix, commands, frame, user_fifo_write_fmt,
}
use pc_env_vu.UserFifo.Dispatch.{cmd_handle_first}
use pc_env_vu.Argv.Words.{spaced}
use pc_env_vu.UserFifo.Frames.{Item, stream, commands_of, commands-stream}
use pc_env_vu.UserFifo.Report.{write_fmt_fails}

-- "x^on\n^of^\n^ha": the third command is cut.
abbrev items : List Item
items =
    record { noise = b'x' ∷ []; command = b'o' ∷ b'n' ∷ [] }
    ∷ record { noise = []; command = b'o' ∷ b'f' ∷ prefix ∷ [] }
    ∷ []

commands_run :
    commands (stream items (prefix ∷ b'h' ∷ b'a' ∷ []))
    ≡ (b'o' ∷ b'n' ∷ []) ∷ (b'o' ∷ b'f' ∷ prefix ∷ []) ∷ []
unfolding commands split_at
commands_run = refl

commands-stream_example : commands (stream items (prefix ∷ b'h' ∷ b'a' ∷ [])) ≡ commands_of items
commands-stream_example =
    commands-stream items (prefix ∷ b'h' ∷ b'a' ∷ [])
      (
        ((λ e. omega (arith, e)), tt),
        ((λ e. omega (arith, e)), ((λ e. omega (arith, e)), tt)),
        (
          tt,
          ((λ e. omega (arith, e)), ((λ e. omega (arith, e)), ((λ e. omega (arith, e)), tt))),
          tt,
        ),
      )
      ((λ e. omega (arith, e)), ((λ e. omega (arith, e)), ((λ e. omega (arith, e)), tt)))

-- All four bytes go out.
abbrev all_out : Moved
all_out = record { count = 4; bytes = frame (b'o' ∷ b'n' ∷ []); calls = [] }

sent :
    un_fifo_ops_write (frame (b'o' ∷ b'n' ∷ [])) (record { moved = some 4; errno = 0 } ∷ [])
    ≡ some all_out
unfolding un_fifo_ops_write un_write
sent = refl

write_fmt_fails_run :
    user_fifo_write_fmt true (b'o' ∷ b'n' ∷ []) (record { moved = some 4; errno = 0 } ∷ [])
    ≡ some (failed, some all_out)
write_fmt_fails_run =
    write_fmt_fails (b'o' ∷ b'n' ∷ []) (record { moved = some 4; errno = 0 } ∷ []) (omega arith)
      (omega arith) sent

-- A table of "only", whose handler fails, and "once", which matches as well.
abbrev table : List Entry
table =
    record { cmd = b'o' ∷ b'n' ∷ b'l' ∷ b'y' ∷ []; handle = λ argv. true }
    ∷ record { cmd = b'o' ∷ b'n' ∷ b'c' ∷ b'e' ∷ []; handle = λ argv. false }
    ∷ []

cmd_handle_first_run :
    user_fifo_cmd_handle table ((b'o' ∷ b'n' ∷ []) ++ spaced ((b'a' ∷ []) ∷ []) (10 ∷ []))
    ≡ some failure
cmd_handle_first_run =
    cmd_handle_first [] (record { cmd = b'o' ∷ b'n' ∷ b'l' ∷ b'y' ∷ []; handle = λ argv. true })
      (record { cmd = b'o' ∷ b'n' ∷ b'c' ∷ b'e' ∷ []; handle = λ argv. false } ∷ [])
      (b'o' ∷ b'n' ∷ []) (b'l' ∷ b'y' ∷ []) ((b'a' ∷ []) ∷ []) []
      ((refl, (refl, tt)), omega arith, ((refl, tt), omega arith, tt)) tt refl
