-- ===== src/Ccsrb/Client.antt =====
-- How the reader and the writer use ccsrb.c: ask for room, move the bytes, report them moved.
use pc_env_vu.Base.{ℕ, true, Option, none, some, List, [], ◌>>=◌, length, Block, fill, fetch}
use pc_env_vu.Window.{window}
use pc_env_vu.Queue.{Op, Reply}
use pc_env_vu.Ccsrb.{Ccsrb, Place, main, side, write_query, read_query, write_sync, read_sync}

-- The writer stores its bytes at the pointer that it got.
store : Option Place × Ccsrb → List ℕ → Option Ccsrb
store (none, c) xs = none
store (some (main off), c) xs = do b ← fill c.mm off xs; some (record c { mm = b })
store (some side, c) xs = do w ← c.wcm; b ← fill w 0 xs; some (record c { wcm = some b })

load : Option Place × Ccsrb → ℕ → Option (List ℕ)
load (none, c) n = none
load (some (main off), c) n = fetch c.mm off n
load (some side, c) n = c.rcm >>= λ b. fetch b 0 n

unfoldable pub get : Ccsrb → ℕ → Option (List ℕ × Ccsrb)
unfolding load
get c n = do q ← read_query c true n; xs ← load q n; some (xs, read_sync (q.1) n)

module _ (alloc : ℕ → Option Block) where
  -- `none` is a refusal or a fault.
  unfoldable pub put : Ccsrb → List ℕ → Option Ccsrb
  unfolding store
  put c xs = do
    d ← store (write_query c (alloc (length xs)) (length xs)) xs
    write_sync d (length xs)

  -- A client's call, and what it hands over. A refused call leaves the ring as it was.
  unfoldable pub step : Ccsrb → Op → Reply × Ccsrb
  step c (Op.put xs) = elim (put c xs) [ none ↦ (none, c) | some c' ↦ (some [], c') ]
  step c (Op.get n) = elim (get c n) [ none ↦ (none, c) | some (xs, c') ↦ (some xs, c') ]

-- The bytes that the ring holds, oldest first.
abbrev pub contents : Ccsrb → List ℕ
contents c = window c.mm.byte c.c_bytes c.ri c.contex
