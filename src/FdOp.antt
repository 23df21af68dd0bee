-- ===== src/FdOp.antt =====
-- The macros `un_read` and `un_write` of fd_op.h: a system call repeated until all is moved.
pub mod Front
pub mod Whole
mod Tests
use pc_env_vu.Base.{
  ℕ, ◌+◌, Option, none, some, List, [], ◌∷◌, ◌++◌, ◌==◌, if◌then◌else◌, length, take, drop,
}

-- What one call of `write` or `read` does: the number of bytes that it moves, `none` for -1, and
-- the value of `errno` after it, which a call that succeeds leaves as it was.
pub record Call : Type 0 where
  pub moved : Option ℕ
  pub errno : ℕ

abbrev pub eintr : ℕ
eintr = 4

-- `if (ret > 0) count += ret;`
abbrev pub amount : Call → ℕ
amount c = elim (c.moved) [ none ↦ 0 | some n ↦ n ]

-- What the macro returns, the bytes that went out, and the calls that are left.
pub record Moved : Type 0 where
  pub count : ℕ
  pub bytes : List ℕ
  pub calls : List Call

-- The loop with `count` bytes out and `xs` to go. `none` is a call that never returns: the list is
-- of all those that do.
unfoldable pub un_write_from : ℕ → List ℕ → List Call → Option Moved
un_write_from count xs [] = none
un_write_from count xs (c ∷ cs) =
    let n = amount c in
    let out = take n xs in
    let left = drop n xs in
    let again = un_write_from (count + n) left cs in
    if length left == 0
    then some (record { count = count + n; bytes = out; calls = cs })
    else if c.errno == eintr
    then elim again [ none ↦ none | some m ↦ some (record m { bytes = out ++ m.bytes }) ]
    else some (record { count = count + n; bytes = out; calls = cs })

unfoldable pub un_write : List ℕ → List Call → Option Moved
unfolding un_write_from
un_write xs cs = un_write_from 0 xs cs

-- The same loop over `read`, into a buffer of `size` bytes; `xs` is what the descriptor has to give.
unfoldable pub un_read_from : (size count : ℕ) → List ℕ → List Call → Option Moved
un_read_from size count xs [] = none
un_read_from size count xs (c ∷ cs) =
    let n = amount c in
    let got = take n xs in
    let again = un_read_from size (count + n) (drop n xs) cs in
    if count + n == size
    then some (record { count = count + n; bytes = got; calls = cs })
    else if c.errno == eintr
    then elim again [ none ↦ none | some m ↦ some (record m { bytes = got ++ m.bytes }) ]
    else some (record { count = count + n; bytes = got; calls = cs })

unfoldable pub un_read : (size : ℕ) → List ℕ → List Call → Option Moved
unfolding un_read_from
un_read size xs cs = un_read_from size 0 xs cs
