-- ===== src/CondFifo/Tests.antt =====
-- The theorems at a full queue.
use pc_env_vu.Base.{◌≡◌, [], ◌∷◌}
use pc_env_vu.MtQueue
use pc_env_vu.MtQueue.{returns}
use pc_env_vu.CondFifo.{CondFifo, read_one, write_one, write_cyc}
use pc_env_vu.CondFifo.Agrees.{as_queue, read_as, queue_after, as_queue?, CondFifo-MtQueue}

abbrev full : CondFifo
full = record { q = (1 ∷ []) ∷ (2 ∷ []) ∷ []; max_count = 2 }

CondFifo-MtQueue_example :
    (MtQueue.read (as_queue full) ≡ read_as (read_one full))
    × (MtQueue.write (as_queue full) (3 ∷ [])
        ≡ returns (write_one full (3 ∷ [])).0 (as_queue (write_one full (3 ∷ [])).1))
    × (queue_after (MtQueue.cyc_write (as_queue full) (3 ∷ []))
        ≡ as_queue? (write_cyc full (3 ∷ [])))
CondFifo-MtQueue_example = CondFifo-MtQueue full (3 ∷ [])
