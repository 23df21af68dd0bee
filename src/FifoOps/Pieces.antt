-- ===== src/FifoOps/Pieces.antt =====
-- A write of more than one piece whose first piece is cut short.
use pc_env_vu.Base.{
  ℕ, zero, suc, ◌+◌, ◌-◌, ◌≤◌, ◌<◌, ◌≡◌, refl, ap, ap₂, ◌∙◌, ◌≢◌, Option, some, List, [], ◌∷◌, ◌++◌,
  arith, if◌then◌else◌, length, take, drop, length-drop, lt→ltb, ◌>>=◌,
}
use pc_env_vu.FdOp.{Call, Moved, amount, eintr, un_write}
use pc_env_vu.FifoOps.{pipe_buf, write_pieces, un_fifo_ops_write}

un_write_one :
    (xs : List ℕ) (c : Call) (cs : List Call)
    → c.errno ≢ eintr
    → un_write xs (c ∷ cs)
      ≡ some (record { count = amount c; bytes = take (amount c) xs; calls = cs })
unfolding un_write
un_write_one xs c cs e = ground arith

un_write_all :
    (xs : List ℕ) (c : Call) (cs : List Call)
    → amount c ≡ length xs
    → un_write xs (c ∷ cs)
      ≡ some (record { count = amount c; bytes = take (amount c) xs; calls = cs })
unfolding un_write
un_write_all xs c cs e = ground (arith, length-drop (amount c) xs)

take-all : (n : ℕ) (xs : List ℕ) → n ≡ length xs → take n xs ≡ xs
take-all zero [] e = refl
take-all zero (x ∷ xs) e = absurd (omega (arith, e))
take-all (suc n) [] e = refl
take-all (suc n) (x ∷ xs) e = ap (λ r. x ∷ r) (take-all n xs (omega (arith, e)))

-- The first round of the loop, and its last.
pieces_first :
    (k n : ℕ) (xs out : List ℕ) (cs ds : List Call)
    → pipe_buf < length xs
    → un_write (take pipe_buf xs) cs ≡ some (record { count = n; bytes = out; calls = ds })
    → write_pieces (suc k) xs cs
      ≡ (write_pieces k (drop pipe_buf xs) ds >>= λ r. some (record r { bytes = out ++ r.bytes }))
unfolding write_pieces
pieces_first k n xs out cs ds long e =
    ap (λ t. if t then (un_write (take pipe_buf xs) cs >>= after) else un_write xs cs)
      (lt→ltb pipe_buf (length xs) long)
    ∙ ap (λ o. o >>= after) e
  where
    after : Moved → Option Moved
    after m = write_pieces k (drop pipe_buf xs) m.calls >>= λ r.
        some (record r { bytes = m.bytes ++ r.bytes })

pieces_last :
    (k : ℕ) (xs : List ℕ) (cs : List Call)
    → length xs ≤ pipe_buf
    → write_pieces k xs cs ≡ un_write xs cs
unfolding write_pieces
pieces_last zero xs cs short = refl
pieces_last (suc k) xs cs short = ground arith

module _ (xs : List ℕ) (c d : Call) (long : pipe_buf < length xs)
    (two : length xs ≤ pipe_buf + pipe_buf) (cut : amount c < pipe_buf) (calm : c.errno ≢ eintr)
    (whole : amount d ≡ length xs - pipe_buf) where
  abbrev lost : Moved
  lost = record {
    count = length xs - pipe_buf;
    bytes = take (amount c) (take pipe_buf xs) ++ drop pipe_buf xs;
    calls = [];
  }

  second_piece :
      (k : ℕ)
      → write_pieces k (drop pipe_buf xs) (d ∷ []) ≡ some (record lost { bytes = drop pipe_buf xs })
  second_piece k =
      pieces_last k (drop pipe_buf xs) (d ∷ []) (omega (arith, length-drop pipe_buf xs, two))
      ∙ un_write_all (drop pipe_buf xs) d [] all
      ∙ ap₂ (λ n b. some (record { count = n; bytes = b; calls = [] })) whole
          (take-all (amount d) (drop pipe_buf xs) all)
    where
      all : amount d ≡ length (drop pipe_buf xs)
      all = omega (arith, length-drop pipe_buf xs, whole)

  lost_lem : (k : ℕ) → write_pieces (suc k) xs (c ∷ d ∷ []) ≡ some lost
  lost_lem k =
      pieces_first k (amount c) xs _ (c ∷ d ∷ []) (d ∷ []) long
        (un_write_one (take pipe_buf xs) c (d ∷ []) calm)
      ∙ ap (λ o. o >>= put_after) (second_piece k)
    where
      put_after : Moved → Option Moved
      put_after r = some (record r { bytes = take (amount c) (take pipe_buf xs) ++ r.bytes })

-- If the first of two pieces is cut short, and not by a signal, and the second goes out whole, then
-- the rest of the first piece is lost, and the count returned is that of the second.
pub short_piece_lost :
    (xs : List ℕ) (c d : Call)
    → pipe_buf < length xs
    → length xs ≤ pipe_buf + pipe_buf
    → amount c < pipe_buf
    → c.errno ≢ eintr
    → amount d ≡ length xs - pipe_buf
    → un_fifo_ops_write xs (c ∷ d ∷ [])
      ≡ some (record {
        count = length xs - pipe_buf;
        bytes = take (amount c) (take pipe_buf xs) ++ drop pipe_buf xs;
        calls = [];
      })
unfolding un_fifo_ops_write
short_piece_lost [] c d long two cut calm whole = absurd (omega (arith, long))
short_piece_lost (x ∷ rest) c d long two cut calm whole =
    lost_lem (x ∷ rest) c d long two cut calm whole (length rest)
