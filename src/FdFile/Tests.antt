-- ===== src/FdFile/Tests.antt =====
-- A copy of five bytes whose read is cut short.
use mathlib.Core.Path.{subst}
use pc_env_vu.Base.{◌≡◌, refl, some, [], ◌∷◌, ◌++◌, true, arith, length, Text}
use pc_env_vu.FdOp.{Moved, eintr, un_read, un_write}
use pc_env_vu.FdOp.Front.{Honest}
use pc_env_vu.FdFile.{Calls, is_copied, fd_cpoy_file, fd_read_file, fd_write_file}
use pc_env_vu.FdFile.Copy.{fd_cpoy_file-front}

abbrev five : Text
five = 1 ∷ 2 ∷ 3 ∷ 4 ∷ 5 ∷ []

-- One call reads two bytes and a signal comes, one reads one more and no signal comes.
abbrev cut_short : Calls
cut_short = record {
  source = some five;
  is_allocated = true;
  reads = record { moved = some 2; errno = eintr } ∷ record { moved = some 1; errno = 0 } ∷ [];
  target = some (9 ∷ []);
  writes = record { moved = some 3; errno = 0 } ∷ [];
  is_closed = true;
}

abbrev three_read : Moved
three_read = record { count = 3; bytes = 1 ∷ 2 ∷ 3 ∷ []; calls = [] }

cut_short_read : un_read 5 five cut_short.reads ≡ some three_read
unfolding un_read
cut_short_read = refl

-- It returns 0.
cut_short_copied : fd_cpoy_file cut_short ≡ some (is_copied, some (1 ∷ 2 ∷ 3 ∷ []))
unfolding fd_cpoy_file fd_read_file fd_write_file un_read un_write
cut_short_copied = refl

writes_fit :
    (got : Moved)
    → un_read 5 five cut_short.reads ≡ some got
    → Honest (length got.bytes) cut_short.writes
writes_fit got e =
    let three : three_read ≡ got = ground (arith, cut_short_read, e) in
    subst (λ m. Honest (length m.bytes) cut_short.writes) three (ground arith, tt)

fd_cpoy_file-front_example :
    (got : Moved) × (rest : Text) × (un_read 5 five cut_short.reads ≡ some got)
    × (got.count ≡ 3)
    × ((1 ∷ 2 ∷ 3 ∷ []) ++ rest ≡ five)
fd_cpoy_file-front_example =
    fd_cpoy_file-front cut_short five (9 ∷ []) (1 ∷ 2 ∷ 3 ∷ []) refl refl (omega arith)
      (ground arith, (ground arith, tt)) writes_fit cut_short_copied
