-- ===== src/Uartd.antt =====
-- uartd (package/app/uartd/src/uartd.cpp): commands over a serial line. One thread cuts commands out
-- of what is read, one runs them, one writes what is to be sent.
pub mod Pieces
pub mod Sending
pub mod Requests
mod Tests
use pc_env_vu.Base.{
  c_string, buffer, ℕ, zero, suc, ◌+◌, Option, none, some, List, [], ◌∷◌, ◌++◌, Bool, true, false,
  ◌==◌, if◌then◌else◌, ◌>>=◌, length, take, drop, Text, same, split_at,
}
use pc_env_vu.Argv.{argl_to_argv}
use pc_env_vu.CondFifo.{CondFifo, write_one}

abbrev pub newline : ℕ
newline = 10

-- The part of `HardReadProcess` that lasts from one read to the next, with the queue that it fills.
pub record Reader : Type 0 where
  pub req : Text
  pub need_to_get_new_cmd : Bool
  pub r_fifo : CondFifo

-- The first `if`: the bytes before a start mark go.
unfoldable pub seek : Reader → Reader
seek r =
    if r.need_to_get_new_cmd
    then elim (split_at b'^' r.req) [
      | none ↦ record r { req = []; need_to_get_new_cmd = true }
      | some (before, behind) ↦ record r { req = b'^' ∷ behind; need_to_get_new_cmd = false }
    ]
    else r

-- The search for the end mark. The command is queued with its start mark, or dropped where the queue is
-- full.
unfoldable pub finish : Reader → Reader
finish r = elim (split_at newline r.req) [
  | none ↦ r
  | some (cmd, behind) ↦ record {
    req = behind;
    need_to_get_new_cmd = true;
    r_fifo = (write_one r.r_fifo cmd).1;
  }
]

-- A round of `HardReadProcess` on the bytes of a read. Where no start mark is found the round ends
-- early, with no text that an end mark could be in.
unfoldable pub hard_read : Reader → List ℕ → Option Reader
unfolding c_string
hard_read r bytes =
    c_string (buffer 128 bytes) >>= λ s. some (finish (seek (record r { req = r.req ++ s })))

unfoldable pub hard_reads : Reader → List (List ℕ) → Option Reader
hard_reads r [] = some r
hard_reads r (bytes ∷ more) = hard_read r bytes >>= λ r'. hard_reads r' more

-- `sendCmd`, up to its queue.
unfoldable pub send_cmd : CondFifo → Text → Bool × CondFifo
send_cmd w_fifo cmd = write_one w_fifo (b'^' ∷ (cmd ++ (newline ∷ [])))

-- The loop of `HardWriteProcess` on one text, over what the calls of `write` return: `none` for a result
-- that is not positive. The result is what goes out, with the calls that are left; `none` is a loop
-- that goes on after all of these.
unfoldable pub hard_write : Text → List (Option ℕ) → Option (Text × List (Option ℕ))
hard_write [] answers = some ([], answers)
hard_write (c ∷ cmd) [] = none
hard_write (c ∷ cmd) (none ∷ answers) = hard_write (c ∷ cmd) answers
hard_write (c ∷ cmd) (some res ∷ answers) =
    hard_write (drop res (c ∷ cmd)) answers >>= λ (out, left).
    some (take res (c ∷ cmd) ++ out, left)

pub record CmdItem : Type 0 where
  pub name : Text
  -- Whether the handler returns a negative number.
  pub handle : List Text → Bool

-- A round of `CmdparseProcess`: the command fails to be cut; it is run; no item has its name.
pub data Parsed : Type 0 where
  not_cut : Parsed
  ran : (name : Text) → (failed : Bool) → Parsed
  not_found : Parsed

unfoldable pub run_cmd : List CmdItem → List Text → Text → Parsed
run_cmd [] argv argv_0 = not_found
run_cmd (i ∷ items) argv argv_0 =
    let rest = run_cmd items argv argv_0 in
    if same i.name argv_0 then ran i.name (i.handle argv) else rest

-- `none` is a `substr` past the end. `std::string::data` ends with a 0.
unfoldable pub parse_cmd : List CmdItem → Text → Option Parsed
parse_cmd items [] = none
parse_cmd items (mark ∷ cmd) = argl_to_argv (cmd ++ (0 ∷ [])) >>= λ line. elim line [
  | none ↦ some not_cut
  | some [] ↦ some not_cut
  | some (argv_0 ∷ argv) ↦ some (run_cmd items (argv_0 ∷ argv) argv_0)
]
