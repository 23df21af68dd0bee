-- ===== src/MtQueue/Calls.antt =====
-- The calls of the threads, one after the other.
use mathlib.Core.List.{reverse}
use pc_env_vu.Base.{
  ◌≤◌, ◌≡◌, Option, some, none, List, [], ◌∷◌, ◌++◌, Bool, if◌then◌else◌, ◌>>=◌, length,
}
use pc_env_vu.MtQueue.{
  MtQueue, returns, waits, undefined, read, read_for, write, write_for, cyc_write, clear,
}

-- The calls that change the queue, each at a moment where it looks at it.
pub data Call (A : Type 0) : Type 0 where
  read_call : Call A
  read_for_call : Bool → Call A
  write_call : A → Call A
  write_for_call : Bool → A → Call A
  cyc_write_call : A → Call A
  clear_call : Call A

-- The elements that a step puts into the queue, and those that it takes out, oldest first.
pub record Moved (A : Type 0) : Type 0 where
  pub entered : List A
  pub left : List A
  pub after : MtQueue A

module _ {A : Type 0} where
  abbrev pub list_of : Option A → List A
  list_of none = []
  list_of (some x) = x ∷ []

  -- One call of a thread. A call that waits changes nothing; `none` is the undefined one.
  unfoldable pub step : MtQueue A → Call A → Option (Moved A)
  step m read_call = elim (read m) [
    | returns x m' ↦ some (record { entered = []; left = x ∷ []; after = m' })
    | waits ↦ some (record { entered = []; left = []; after = m })
    | undefined ↦ none
  ]
  step m (read_for_call expired) = elim (read_for expired m) [
    | returns x m' ↦ some (record { entered = []; left = list_of x; after = m' })
    | waits ↦ some (record { entered = []; left = []; after = m })
    | undefined ↦ none
  ]
  step m (write_call x) = elim (write m x) [
    | returns ok m' ↦ some (record { entered = if ok then x ∷ [] else []; left = []; after = m' })
    | waits ↦ some (record { entered = []; left = []; after = m })
    | undefined ↦ none
  ]
  step m (write_for_call expired x) = elim (write_for expired m x) [
    | returns ok m' ↦ some (record { entered = if ok then x ∷ [] else []; left = []; after = m' })
    | waits ↦ some (record { entered = []; left = []; after = m })
    | undefined ↦ none
  ]
  step m (cyc_write_call x) = elim (cyc_write m x) [
    | returns old m' ↦ some (record { entered = x ∷ []; left = list_of old; after = m' })
    | waits ↦ some (record { entered = []; left = []; after = m })
    | undefined ↦ none
  ]
  step m clear_call = some (record { entered = []; left = reverse m.q; after = clear m })

  -- The calls of all threads in the order in which they come by the lock.
  unfoldable pub run : MtQueue A → List (Call A) → Option (Moved A)
  run m [] = some (record { entered = []; left = []; after = m })
  run m (c ∷ cs) = step m c >>= λ s. run s.after cs >>= λ r.
      some (record { entered = s.entered ++ r.entered; left = s.left ++ r.left; after = r.after })

  -- What left, with what is still there, is what was there with what entered.
  pub record IsInOrder (m : MtQueue A) (s : Moved A) : Type 0 where
    pub in_order : s.left ++ reverse s.after.q ≡ reverse m.q ++ s.entered
    pub bounded : length s.after.q ≤ m.max_count
    pub same_bound : s.after.max_count ≡ m.max_count
