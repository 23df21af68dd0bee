-- ===== src/CondFifo.antt =====
-- CondFifo (package/app/uartd/src/condFifo.h): a bounded queue of texts between the threads of uartd.
pub mod Agrees
mod Tests
use pc_env_vu.Base.{
  ℕ, Option, none, some, List, [], ◌∷◌, Bool, true, false, leb, if◌then◌else◌, ◌>>=◌, length, Text,
}
use pc_env_vu.MtQueue.{back, pop_back}

-- The list starts at the front.
pub record CondFifo : Type 0 where
  pub q : List Text
  pub max_count : ℕ

-- `none` is a call that waits.
unfoldable pub read_one : CondFifo → Option (Text × CondFifo)
read_one f = back f.q >>= λ one. some (one, record f { q = pop_back f.q })

-- Whether 0 is returned.
unfoldable pub write_one : CondFifo → Text → Bool × CondFifo
write_one f one =
    if leb f.max_count (length f.q) then (false, f) else (true, record f { q = one ∷ f.q })

-- `none` is a `pop_back` of an empty deque.
unfoldable pub write_cyc : CondFifo → Text → Option CondFifo
write_cyc f one =
    if leb f.max_count (length f.q)
    then (back f.q >>= λ old. some (record f { q = one ∷ pop_back f.q }))
    else some (record f { q = one ∷ f.q })
