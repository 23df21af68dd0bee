-- ===== src/UserFifo.antt =====
-- user_fifo.c: commands over a FIFO. Each goes out between a start and an end mark, and the reader takes
-- the commands out of each block that it reads.
pub mod Frames
pub mod Report
pub mod Dispatch
mod Tests
use pc_env_vu.Base.{
  split_at, ℕ, zero, suc, ◌+◌, Option, none, some, List, [], ◌∷◌, ◌++◌, Bool, true, false, ◌&&◌,
  length, leb, ◌==◌, if◌then◌else◌, ◌>>=◌,
}
use pc_env_vu.Argv.{argl_to_argv}
use pc_env_vu.FdOp.{Call, Moved}
use pc_env_vu.FifoOps.{un_fifo_ops_write}

-- `FMT_PREFIX` and `FMT_SUBFFIX`.
abbrev pub prefix : ℕ
prefix = b'^'

abbrev pub suffix : ℕ
suffix = 10

-- `sizeof(buf)-FMT_PREFIX_LEN-FMT_SUBFFIX_LEN-1`
abbrev pub available_size : ℕ
available_size = 1021

-- The commands that the inner loop of `user_fifo_read_proc` hands to the handler. Each round takes
-- two marks, so the length is fuel enough.
unfoldable pub commands_from : (fuel : ℕ) → List ℕ → List (List ℕ)
commands_from zero buf = []
commands_from (suc fuel) buf = elim (split_at prefix buf) [
  | none ↦ []
  | some (skipped, cmd) ↦ elim (split_at suffix cmd) [
    | none ↦ []
    | some (contex, rest) ↦ contex ∷ commands_from fuel rest
  ]
]

unfoldable pub commands : List ℕ → List (List ℕ)
unfolding commands_from
commands buf = commands_from (length buf) buf

-- What the writers return.
pub data Code : Type 0 where
  ok refused too_long failed : Code

-- What `user_fifo_write_fmt` puts into `buf`: the text between its marks.
abbrev pub frame : List ℕ → List ℕ
frame text = prefix ∷ (text ++ (suffix ∷ []))

-- The count that `un_fifo_ops_write` returns is never negative, so the second try is not reached. The
-- result is the number that is returned, with what went out; `none` for a NULL handle.
unfoldable pub user_fifo_write_str :
    (ptr : Bool) → List ℕ → List Call → Option (Option ℕ × Option Moved)
user_fifo_write_str false contex cs = some (none, none)
user_fifo_write_str true contex cs = un_fifo_ops_write contex cs >>= λ m. some (some 0, some m)

-- `text` is what `vsnprintf` formats, without a 0 byte. `wRet<ret` holds of every negative `wRet`.
unfoldable pub user_fifo_write_fmt :
    (ptr : Bool) → List ℕ → List Call → Option (Code × Option Moved)
user_fifo_write_fmt ptr text cs =
    if length text == 0
    then some (refused, none)
    else if leb available_size (length text)
    then some (too_long, none)
    else (user_fifo_write_str ptr (frame text) cs >>= λ (ret, m). elim ret [
      | none ↦ some (failed, m)
      | some n ↦ some (if leb (length text) n then ok else failed, m)
    ])

-- An entry of the table: the command's name, and whether its handler returns a negative number.
pub record Entry : Type 0 where
  pub cmd : List ℕ
  pub handle : List (List ℕ) → Bool

-- `strncmp` over the length of the shorter one gives 0.
unfoldable pub matches : List ℕ → List ℕ → Bool
matches [] arg = true
matches (x ∷ cmd) [] = true
matches (x ∷ cmd) (y ∷ arg) = let rest = matches cmd arg in x == y && rest

-- What `user_fifo_cmd_handle` returns: 0, -1, -2 and -3.
pub data Outcome : Type 0 where
  succeeded no_line failure not_found : Outcome

unfoldable pub dispatch : List Entry → (argv : List (List ℕ)) → (argv_0 : List ℕ) → Outcome
dispatch [] argv argv_0 = not_found
dispatch (i ∷ tbl) argv argv_0 =
    let rest = dispatch tbl argv argv_0 in
    if matches i.cmd argv_0 then (if i.handle argv then failure else succeeded) else rest

-- On the buffer from the command on: the length is not used. There always is an `argv[0]`.
unfoldable pub user_fifo_cmd_handle : List Entry → List ℕ → Option Outcome
user_fifo_cmd_handle tbl buf = argl_to_argv buf >>= λ line. elim line [
  | none ↦ some no_line
  | some [] ↦ none
  | some (argv_0 ∷ argv) ↦ some (dispatch tbl (argv_0 ∷ argv) argv_0)
]
