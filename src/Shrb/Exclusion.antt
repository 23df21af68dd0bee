-- ===== src/Shrb/Exclusion.antt =====
-- In every interleaving the two sides keep to bytes of their own.
use pc_env_vu.Base.{ℕ, ◌+◌, ◌≤◌, ◌<◌, ◌≡◌, refl, ◌⊎◌, some, arith}
use pc_env_vu.Window.{wrap}
use pc_env_vu.Csrb
use pc_env_vu.Csrb.{Ring}
use pc_env_vu.Csrb.Inv.{IsShaped, IsValid, moved, shift-some}
use pc_env_vu.Shrb.{Shrb, write_query, read_query, shift, commit_write, advance, commit_read}
use pc_env_vu.Shrb.Sides.{
  Side, idle, busy, synced, Sides, Step, ask_write, store, move_write, end_write, ask_read,
  move_read, end_read, Reach, here, next,
}

-- The bytes that a side has asked for, and those past which it has moved its index.
abbrev pub held : Side → ℕ
held idle = 0
held (busy n) = n
held (synced n) = n

abbrev pub gone : Side → ℕ
gone idle = 0
gone (busy n) = 0
gone (synced n) = n

pub record IsSafe (s : Sides) : Type 0 where
  pub small : s.shrb.ring.capacity < 2147483648
  pub storage : s.shrb.ring.capacity + s.shrb.ring.capacity ≤ s.shrb.ring.buf.size
  pub ri_in : s.shrb.ring.ri < s.shrb.ring.capacity
  pub wi_in : s.shrb.ring.wi < s.shrb.ring.capacity
  pub counted : s.shrb.ring.contex + s.shrb.ring.empty ≡ s.shrb.ring.capacity
  pub room : held s.writer ≤ s.shrb.ring.empty
  pub stock : held s.reader ≤ s.shrb.ring.contex
  pub linked :
      (s.shrb.ring.ri + s.shrb.ring.contex + gone s.writer ≡ s.shrb.ring.wi + gone s.reader)
      ⊎ (s.shrb.ring.ri + s.shrb.ring.contex + gone s.writer
          ≡ s.shrb.ring.wi + gone s.reader + s.shrb.ring.capacity)

-- Two idle sides at a valid ring are safe.
pub IsSafe-start :
    (m : Shrb) → IsValid m.ring → IsSafe (record { shrb = m; writer = idle; reader = idle })
IsSafe-start m v = omega arith

shaped : {s : Sides} → IsSafe s → IsShaped s.shrb.ring
shaped v = omega arith

shift-inv :
    {s : Sides} (n : ℕ) (m : Shrb)
    → IsSafe s
    → n ≤ s.shrb.ring.empty
    → shift s.shrb n ≡ some m
    → m ≡ record (s.shrb) {
      ring = record (s.shrb.ring) {
        buf = record { size = s.shrb.ring.buf.size; byte = moved s.shrb.ring n };
        wi = wrap s.shrb.ring.capacity (s.shrb.ring.wi + n);
      };
    }
unfolding shift
shift-inv {s} n m v fits e = ground (arith, shift-some n (shaped v) fits)

-- Every step keeps the two sides safe.
pub Step-IsSafe : {s t : Sides} → Step s t → IsSafe s → IsSafe t
unfolding write_query read_query commit_write Csrb.commit_write advance Csrb.advance commit_read
    Csrb.commit_read
Step-IsSafe {s} (ask_write n off w q) v = ground arith
Step-IsSafe {s} (store n g w out) v = ground arith
Step-IsSafe {s} (move_write n m w q) v = ground (arith, shift-inv n m v)
Step-IsSafe {s} (end_write n w) v = ground arith
Step-IsSafe {s} (ask_read n off w q) v = ground arith
Step-IsSafe {s} (move_read n w) v = ground arith
Step-IsSafe {s} (end_read n w) v = ground arith

pub Reach-IsSafe : {s t : Sides} → IsSafe s → Reach s t → IsSafe t
Reach-IsSafe v here = v
Reach-IsSafe v (next r st) = Step-IsSafe st (Reach-IsSafe v r)

module _ {s : Sides} (n k : ℕ) (v : IsSafe s) (reads : s.reader ≡ busy n) (inside : k < n) where
  step_keeps :
      {t : Sides}
      → Step s t
      → t.shrb.ring.buf.byte (s.shrb.ring.ri + k) ≡ s.shrb.ring.buf.byte (s.shrb.ring.ri + k)
  unfolding commit_write Csrb.commit_write advance Csrb.advance commit_read Csrb.commit_read
  step_keeps (ask_write m off w q) = refl
  step_keeps (store m g w out) = ground (arith, out (s.shrb.ring.ri + k))
  step_keeps (move_write m r w q) = unfold moved in ground (arith, shift-inv m r v)
  step_keeps (end_write m w) = refl
  step_keeps (ask_read m off w q) = refl
  step_keeps (move_read m w) = ground arith
  step_keeps (end_read m w) = refl

-- In every interleaving of a writer and a reader that start idle at a valid ring, while the reader
-- reads the `n` bytes that it asked for no step of either side changes one of them.
pub reader_undisturbed :
    (m : Shrb) {t u : Sides} (n k : ℕ)
    → IsValid m.ring
    → Reach (record { shrb = m; writer = idle; reader = idle }) t
    → Step t u
    → t.reader ≡ busy n
    → k < n
    → u.shrb.ring.buf.byte (t.shrb.ring.ri + k) ≡ t.shrb.ring.buf.byte (t.shrb.ring.ri + k)
reader_undisturbed m n k v r st reads inside =
    step_keeps n k (Reach-IsSafe (IsSafe-start m v) r) reads inside st

-- Wherever such an interleaving comes to rest, with both sides idle, the ring is valid again.
pub Reach-IsValid :
    (m : Shrb) {t : Sides}
    → IsValid m.ring
    → Reach (record { shrb = m; writer = idle; reader = idle }) t
    → t.writer ≡ idle
    → t.reader ≡ idle
    → IsValid t.shrb.ring
Reach-IsValid m v r w q = let safe = Reach-IsSafe (IsSafe-start m v) r in ground arith
