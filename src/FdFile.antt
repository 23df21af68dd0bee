-- ===== src/FdFile.antt =====
-- The functions of fd_op.c that read, write and copy a whole file, over the macros of FdOp. What `open`,
-- `calloc` and the calls of `read` and `write` give is an argument; the size that `fstat` reports is the
-- length of the file.
pub mod Copy
mod Tests
use pc_env_vu.Base.{
  ℕ, Option, to_int, is_negative, none, some, List, [], ◌∷◌, ◌++◌, Bool, true, false, ◌==◌, ltb,
  if◌then◌else◌, ◌>>=◌, length, take, drop, Text,
}
use pc_env_vu.FdOp.{Call, Moved, un_write, un_read}

-- `fd_read_file`: -1, or the `int` that it returns with the bytes in the new buffer. The outer `none` is
-- a call that never returns.
unfoldable pub fd_read_file :
    (file : Option Text) → (is_allocated : Bool) → List Call → Option (Option (ℕ × Text))
fd_read_file none is_allocated reads = some none
fd_read_file (some bytes) false reads = some none
fd_read_file (some bytes) true reads = un_read (length bytes) bytes reads >>= λ m.
    some (if is_negative (to_int m.count) then none else some (to_int m.count, m.bytes))

-- Where the bytes go, by the first letter of `op`: behind the old ones, in place of them all, or over the
-- first of them.
abbrev pub stored : (op : ℕ) → (old new : Text) → Text
stored op old new =
    if op == b'a' then old ++ new else if op == b'w' then new else new ++ drop (length new) old

-- What `fd_write_file` returns, -1 or a count as an `int`, and what is in the file, if it could be opened.
pub record Written : Type 0 where
  pub ret : Option ℕ
  pub content : Option Text

unfoldable pub fd_write_file :
    (file : Option Text) (buf : Text) (op : ℕ) → List Call → (is_closed : Bool) → Option Written
fd_write_file none buf op writes is_closed = some (record { ret = none; content = none })
fd_write_file (some old) buf op writes is_closed = un_write buf writes >>= λ m.
    let ret = if ltb m.count (length buf) then none else some (to_int m.count) in
    some (record { ret = if is_closed then ret else none; content = some (stored op old m.bytes) })

-- What `fd_cpoy_file` returns: 0, -1 or -2.
pub data Copied : Type 0 where
  is_copied : Copied
  is_not_read : Copied
  is_not_written : Copied

pub record Calls : Type 0 where
  pub source : Option Text
  pub is_allocated : Bool
  pub reads : List Call
  pub target : Option Text
  pub writes : List Call
  pub is_closed : Bool

-- What comes of the count that the write returns.
abbrev pub copied : Option ℕ → Copied
copied none = is_not_written
copied (some n) = if is_negative n then is_not_written else is_copied

-- `fd_cpoy_file`, with what is in the target then.
unfoldable pub fd_cpoy_file : Calls → Option (Copied × Option Text)
fd_cpoy_file c = fd_read_file c.source c.is_allocated c.reads >>= λ got.
    elim got as (λ o. Option (Copied × Option Text)) [
      | none ↦ some (is_not_read, c.target)
      | some (ret_size, buf) ↦
          fd_write_file c.target (take ret_size buf) b'w' c.writes c.is_closed >>= λ w.
          some (copied w.ret, w.content)
    ]
