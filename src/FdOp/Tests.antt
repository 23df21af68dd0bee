-- ===== src/FdOp/Tests.antt =====
-- Runs of `un_write`, and its theorem at one of them.
use pc_env_vu.Base.{◌≡◌, refl, none, some, List, [], ◌∷◌, arith}
use pc_env_vu.FdOp.{Call, Moved, eintr, un_write}
use pc_env_vu.FdOp.Front.{IsFront, un_write-IsFront}

-- Two bytes go out and a signal comes, a call moves none, one moves the rest.
abbrev calls : List Call
calls =
    record { moved = some 2; errno = eintr }
    ∷ record { moved = none; errno = eintr }
    ∷ record { moved = some 3; errno = eintr }
    ∷ []

abbrev all_out : Moved
all_out = record { count = 5; bytes = 1 ∷ 2 ∷ 3 ∷ 4 ∷ 5 ∷ []; calls = [] }

un_write_resumed : un_write (1 ∷ 2 ∷ 3 ∷ 4 ∷ 5 ∷ []) calls ≡ some all_out
unfolding un_write
un_write_resumed = refl

-- A call that moves only a part ends the loop when no signal came.
un_write_short :
    un_write (1 ∷ 2 ∷ 3 ∷ []) (record { moved = some 2; errno = 0 } ∷ [])
    ≡ some (record { count = 2; bytes = 1 ∷ 2 ∷ []; calls = [] })
unfolding un_write
un_write_short = refl

un_write-IsFront_example : IsFront 0 (1 ∷ 2 ∷ 3 ∷ 4 ∷ 5 ∷ []) all_out
un_write-IsFront_example =
    un_write-IsFront (1 ∷ 2 ∷ 3 ∷ 4 ∷ 5 ∷ []) calls (omega arith, (omega arith, (omega arith, tt)))
      un_write_resumed
