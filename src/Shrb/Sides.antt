-- ===== src/Shrb/Sides.antt =====
-- One writer and one reader of a shared ring, each in a process of its own. A call of shrb.c is cut
-- where the lock is taken, and the steps of the two interleave in any way.
use pc_env_vu.Base.{ℕ, ◌+◌, ◌≤◌, ◌<◌, ◌≡◌, ◌⊎◌, some}
use pc_env_vu.Shrb.{Shrb, write_query, read_query, shift, commit_write, advance, commit_read}

-- Where a side is: between calls; between the query and the sync, moving its `n` bytes; past the
-- unlocked part of its sync.
pub data Side : Type 0 where
  idle : Side
  busy : ℕ → Side
  synced : ℕ → Side

pub record Sides : Type 0 where
  pub shrb : Shrb
  pub writer : Side
  pub reader : Side

-- The same object with other bytes.
abbrev pub with_bytes : Shrb → (ℕ → ℕ) → Shrb
with_bytes s f = record s {
  ring = record (s.ring) { buf = record { size = s.ring.buf.size; byte = f } };
}

-- `f` and `g` differ at most in the `n` bytes from `i` on.
abbrev pub SameOutside : (f g : ℕ → ℕ) (i n : ℕ) → Type 0
SameOutside f g i n = (j : ℕ) → (j < i) ⊎ (i + n ≤ j) → g j ≡ f j

pub data Step (s : Sides) : Sides → Type 0 where
  ask_write :
      (n off : ℕ)
      → s.writer ≡ idle
      → write_query s.shrb n ≡ some off
      → Step s (record s { writer = busy n })
  store :
      (n : ℕ) (g : ℕ → ℕ)
      → s.writer ≡ busy n
      → SameOutside s.shrb.ring.buf.byte g s.shrb.ring.wi n
      → Step s (record s { shrb = with_bytes s.shrb g })
  move_write :
      (n : ℕ) (m : Shrb)
      → s.writer ≡ busy n
      → shift s.shrb n ≡ some m
      → Step s (record s { shrb = m; writer = synced n })
  end_write :
      (n : ℕ)
      → s.writer ≡ synced n
      → Step s (record s { shrb = commit_write s.shrb n; writer = idle })
  ask_read :
      (n off : ℕ)
      → s.reader ≡ idle
      → read_query s.shrb n ≡ some off
      → Step s (record s { reader = busy n })
  move_read :
      (n : ℕ) → s.reader ≡ busy n → Step s (record s { shrb = advance s.shrb n; reader = synced n })
  end_read :
      (n : ℕ)
      → s.reader ≡ synced n
      → Step s (record s { shrb = commit_read s.shrb n; reader = idle })

pub data Reach (s : Sides) : Sides → Type 0 where
  here : Reach s s
  next : {t u : Sides} → Reach s t → Step t u → Reach s u
