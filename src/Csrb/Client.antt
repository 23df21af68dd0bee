-- ===== src/Csrb/Client.antt =====
-- How the reader and the writer use csrb.c: ask for room, move the bytes, report them moved.
use pc_env_vu.Base.{ℕ, Option, some, List, ◌>>=◌, length, fill, fetch}
use pc_env_vu.Window.{window}
use pc_env_vu.Csrb.{Ring, write_query, read_query, write_sync, read_sync}

-- The writer stores `xs` at the pointer that it got. `none` is a refusal or a fault.
unfoldable pub put : Ring → List ℕ → Option Ring
put r xs = do
  off ← write_query r (length xs)
  b ← fill r.buf off xs
  write_sync (record r { buf = b }) (length xs)

-- The reader takes `n` bytes from the pointer that it got.
unfoldable pub get : Ring → ℕ → Option (List ℕ × Ring)
get r n = do off ← read_query r n; xs ← fetch r.buf off n; some (xs, read_sync r n)

-- The bytes that the ring holds, oldest first.
abbrev pub contents : Ring → List ℕ
contents r = window r.buf.byte r.capacity r.ri r.contex
