-- ===== src/MtQueue.antt =====
-- MTQueue (package/libs/cppUtils/src/MTQueue): a bounded queue between threads. Each function runs
-- under the mutex but for its waits, so what it does when it goes on is one step.
pub mod Calls
pub mod Newest
pub mod Order
pub mod Single
pub mod Waits
mod Tests
use pc_env_vu.Base.{
  ℕ, Option, none, some, List, [], ◌∷◌, Bool, true, false, leb, if◌then◌else◌, ◌>>=◌, length,
}

-- `deque::back` and `pop_back`; the list starts at the front.
module _ {A : Type 0} where
  abbrev pub back : List A → Option A
  back [] = none
  back (x ∷ []) = some x
  back (x ∷ y ∷ q) = back (y ∷ q)

  abbrev pub pop_back : List A → List A
  pop_back [] = []
  pop_back (x ∷ []) = []
  pop_back (x ∷ y ∷ q) = x ∷ pop_back (y ∷ q)

pub record MtQueue (A : Type 0) : Type 0 where
  pub q : List A
  pub max_count : ℕ
  pub is_wait_was_exited : Bool

-- What a call comes to: it returns a value, with the queue it leaves; it waits; it uses the back of an
-- empty deque.
pub data Outcome (A R : Type 0) : Type 0 where
  returns : R → MtQueue A → Outcome A R
  waits : Outcome A R
  undefined : Outcome A R

module _ {A : Type 0} where
  -- `max_size` is that of the deque.
  unfoldable pub create : (max_size max : ℕ) → MtQueue A
  create max_size max = record {
    q = [];
    max_count = if leb max_size max then max_size else max;
    is_wait_was_exited = false;
  }

  pub set_wait_exit_state : MtQueue A → MtQueue A
  set_wait_exit_state m = record m { is_wait_was_exited = true }

  -- `read()`
  unfoldable pub read : MtQueue A → Outcome A A
  read m = elim (back m.q) [ none ↦ waits | some one ↦ returns one (record m { q = pop_back m.q }) ]

  -- `read(tdMsec)`, at a moment where it looks at the queue; `expired` says whether a `wait_for` has
  -- just run out. `none` is NULL.
  unfoldable pub read_for : (expired : Bool) → MtQueue A → Outcome A (Option A)
  read_for expired m = elim (back m.q) [
    | some one ↦ returns (some one) (record m { q = pop_back m.q })
    | none ↦ if expired then (if m.is_wait_was_exited then returns none m else waits) else waits
  ]

  -- `write(one)`: whether 0 is returned.
  unfoldable pub write : MtQueue A → A → Outcome A Bool
  write m one =
      if leb m.max_count (length m.q)
      then returns false m
      else returns true (record m { q = one ∷ m.q })

  -- `write(one, tdMsec)`, at a moment where it looks at the queue.
  unfoldable pub write_for : (expired : Bool) → MtQueue A → A → Outcome A Bool
  write_for expired m one =
      if leb m.max_count (length m.q)
      then (if expired then (if m.is_wait_was_exited then returns false m else waits) else waits)
      else returns true (record m { q = one ∷ m.q })

  -- `cycWrite(one)`: the element that goes to `destroyOne`, which is one where the flag is returned.
  unfoldable pub cyc_write : MtQueue A → A → Outcome A (Option A)
  cyc_write m one =
      if leb m.max_count (length m.q)
      then elim (back m.q) [
        | none ↦ undefined
        | some old ↦ returns (some old) (record m { q = one ∷ pop_back m.q })
      ]
      else returns none (record m { q = one ∷ m.q })

  -- `clear` does not call `destroyOne`.
  unfoldable pub clear : MtQueue A → MtQueue A
  clear m = record m { q = [] }

  pub get_size : MtQueue A → ℕ
  get_size m = length m.q

  unfoldable pub get : MtQueue A → Option A
  get m = back m.q
