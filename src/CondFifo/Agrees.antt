-- ===== src/CondFifo/Agrees.antt =====
-- The queue of uartd is the one of MTQueue.
use pc_env_vu.Base.{◌≡◌, refl, Option, none, some, false, arith, Text}
use pc_env_vu.MtQueue
use pc_env_vu.MtQueue.{MtQueue, Outcome, returns, waits, undefined, back, pop_back}
use pc_env_vu.CondFifo.{CondFifo, read_one, write_one, write_cyc}

abbrev pub as_queue : CondFifo → MtQueue Text
as_queue f = record { q = f.q; max_count = f.max_count; is_wait_was_exited = false }

-- What `read` and `cyc_write` come to, of a queue that reads or writes in this way.
abbrev pub read_as : Option (Text × CondFifo) → Outcome Text Text
read_as none = waits
read_as (some (one, f)) = returns one (as_queue f)

abbrev pub queue_after : Outcome Text (Option Text) → Option (MtQueue Text)
queue_after (returns old m) = some m
queue_after waits = none
queue_after undefined = none

abbrev pub as_queue? : Option CondFifo → Option (MtQueue Text)
as_queue? none = none
as_queue? (some f) = some (as_queue f)

-- Reading, writing, and writing over the oldest do to a CondFifo what they do to an MTQueue of the same
-- texts and the same bound.
pub CondFifo-MtQueue :
    (f : CondFifo) (one : Text)
    → (MtQueue.read (as_queue f) ≡ read_as (read_one f))
      × (MtQueue.write (as_queue f) one
          ≡ returns (write_one f one).0 (as_queue (write_one f one).1))
      × (queue_after (MtQueue.cyc_write (as_queue f) one) ≡ as_queue? (write_cyc f one))
unfolding MtQueue.read MtQueue.write MtQueue.cyc_write read_one write_one write_cyc
CondFifo-MtQueue f one = go (back f.q) refl
  where
    go :
        (o : Option Text)
        → back f.q ≡ o
        → (MtQueue.read (as_queue f) ≡ read_as (read_one f))
          × (MtQueue.write (as_queue f) one
              ≡ returns (write_one f one).0 (as_queue (write_one f one).1))
          × (queue_after (MtQueue.cyc_write (as_queue f) one) ≡ as_queue? (write_cyc f one))
    go none e = (ground arith, ground arith, ground arith)
    go (some x) e = (ground arith, ground arith, ground arith)
