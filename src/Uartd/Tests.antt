-- ===== src/Uartd/Tests.antt =====
-- The theorems at a reader with a short queue.
use pc_env_vu.Base.{
  ℕ, ◌≡◌, refl, Option, none, some, List, [], ◌∷◌, true, false, arith, Lacks-split_at, split_at,
}
use pc_env_vu.CondFifo.{write_one}
use pc_env_vu.Uartd.{Reader, hard_read, hard_reads, hard_write, CmdItem, ran}
use pc_env_vu.Uartd.Pieces.{IsRead, hard_reads-pieces, hard_read-one}
use pc_env_vu.Uartd.Sending.{hard_write_ends}
use pc_env_vu.Uartd.Requests.{answer_read, answer_read-first}

abbrev fresh : Reader
fresh = record { req = []; need_to_get_new_cmd = true; r_fifo = record { q = []; max_count = 4 } }

abbrev read_up : CmdItem
read_up = record { name = 117 ∷ 112 ∷ []; handle = λ argv. false }

-- "xy^up" and " 5\n^": a command in two pieces.
pieces_first : IsRead (120 ∷ 121 ∷ 94 ∷ 117 ∷ 112 ∷ [])
unfolding split_at
pieces_first = record {
  short = ground arith;
  no_zero = Lacks-split_at 0 (120 ∷ 121 ∷ 94 ∷ 117 ∷ 112 ∷ []) refl;
}

pieces_last : IsRead (32 ∷ 53 ∷ 10 ∷ 94 ∷ [])
unfolding split_at
pieces_last = record {
  short = ground arith;
  no_zero = Lacks-split_at 0 (32 ∷ 53 ∷ 10 ∷ 94 ∷ []) refl;
}

hard_reads-pieces_example :
    hard_reads fresh ((120 ∷ 121 ∷ 94 ∷ 117 ∷ 112 ∷ []) ∷ (32 ∷ 53 ∷ 10 ∷ 94 ∷ []) ∷ [])
    ≡ some (record {
      req = 94 ∷ [];
      need_to_get_new_cmd = true;
      r_fifo = record { q = (94 ∷ 117 ∷ 112 ∷ 32 ∷ 53 ∷ []) ∷ []; max_count = 4 };
    })
unfolding split_at write_one
hard_reads-pieces_example =
    hard_reads-pieces fresh (120 ∷ 121 ∷ []) (117 ∷ 112 ∷ []) [] (32 ∷ 53 ∷ []) (94 ∷ []) refl refl
      (Lacks-split_at 94 (120 ∷ 121 ∷ []) refl) (Lacks-split_at 10 (117 ∷ 112 ∷ []) refl)
      (Lacks-split_at 10 (32 ∷ 53 ∷ []) refl) tt pieces_first pieces_last

-- "x^up\n^up\n": two commands in one read.
both_at_once : IsRead (120 ∷ 94 ∷ 117 ∷ 112 ∷ 10 ∷ 94 ∷ 117 ∷ 112 ∷ 10 ∷ [])
unfolding split_at
both_at_once = record {
  short = ground arith;
  no_zero = (Lacks-split_at 0 (120 ∷ 94 ∷ 117 ∷ 112 ∷ 10 ∷ 94 ∷ 117 ∷ 112 ∷ 10 ∷ []) refl);
}

hard_read-one_run :
    hard_read fresh (120 ∷ 94 ∷ 117 ∷ 112 ∷ 10 ∷ 94 ∷ 117 ∷ 112 ∷ 10 ∷ [])
    ≡ some (record {
      req = 94 ∷ 117 ∷ 112 ∷ 10 ∷ [];
      need_to_get_new_cmd = true;
      r_fifo = record { q = (94 ∷ 117 ∷ 112 ∷ []) ∷ []; max_count = 4 };
    })
unfolding split_at write_one
hard_read-one_run =
    hard_read-one fresh (120 ∷ []) (117 ∷ 112 ∷ []) (94 ∷ 117 ∷ 112 ∷ 10 ∷ []) refl refl
      (Lacks-split_at 94 (120 ∷ []) refl) (Lacks-split_at 10 (117 ∷ 112 ∷ []) refl) both_at_once

answer_read-first_example :
    answer_read (read_up ∷ []) fresh (120 ∷ 94 ∷ 117 ∷ 112 ∷ 10 ∷ 94 ∷ 117 ∷ 112 ∷ 10 ∷ [])
    ≡ some (ran (117 ∷ 112 ∷ []) false)
unfolding split_at
answer_read-first_example =
    answer_read-first fresh (120 ∷ []) (94 ∷ 117 ∷ 112 ∷ 10 ∷ []) [] [] read_up [] refl refl refl
      (ground arith) (Lacks-split_at 94 (120 ∷ []) refl) ((refl, (refl, tt)), ground arith, tt) tt
      both_at_once

-- Four bytes, of which each call moves one or two; one call fails.
hard_write_ends_example :
    (left : List (Option ℕ)) × (hard_write
        (94 ∷ 117 ∷ 112 ∷ 10 ∷ [])
        (some 1 ∷ none ∷ some 1 ∷ some 2 ∷ some 2 ∷ [])
      ≡ some (94 ∷ 117 ∷ 112 ∷ 10 ∷ [], left))
hard_write_ends_example =
    hard_write_ends (some 1 ∷ none ∷ some 1 ∷ some 2 ∷ some 2 ∷ []) (94 ∷ 117 ∷ 112 ∷ 10 ∷ [])
      (ground arith)
