-- ===== src/MtQueue/Single.antt =====
-- What one call of a thread does to the order of the elements.
use pc_env_vu.Base.{◌≤◌, ◌<◌, ◌≡◌, ◌≢◌, refl, Option, [], ◌∷◌, Bool, length}
use pc_env_vu.MtQueue.{MtQueue, returns, undefined, back, read_for, cyc_write}
use pc_env_vu.MtQueue.Calls.{read_for_call, cyc_write_call, list_of, step, IsInOrder}
use pc_env_vu.MtQueue.Order.{step-IsInOrder, step-ne-none}

module _ {A : Type 0} where
  pub cyc_write-IsInOrder :
      (m : MtQueue A) (x : A) {old : Option A} {m' : MtQueue A}
      → length m.q ≤ m.max_count
      → cyc_write m x ≡ returns old m'
      → IsInOrder m (record { entered = x ∷ []; left = list_of old; after = m' })
  cyc_write-IsInOrder m x few e =
      step-IsInOrder m (cyc_write_call x) (back m.q) refl few (unfold step in rw (e, step) refl)

  pub read_for-IsInOrder :
      (m : MtQueue A) (expired : Bool) {x : Option A} {m' : MtQueue A}
      → length m.q ≤ m.max_count
      → read_for expired m ≡ returns x m'
      → IsInOrder m (record { entered = []; left = list_of x; after = m' })
  read_for-IsInOrder m expired few e =
      step-IsInOrder m (read_for_call expired) (back m.q) refl few
        (unfold step in rw (e, step) refl)

  pub cyc_write_defined : (m : MtQueue A) (x : A) → 0 < m.max_count → cyc_write m x ≢ undefined
  unfolding step
  cyc_write_defined m x pos e =
      step-ne-none m (cyc_write_call x) (back m.q) refl pos (rw (e, step) refl)

  pub read_for_defined :
      (m : MtQueue A) (expired : Bool) → 0 < m.max_count → read_for expired m ≢ undefined
  unfolding step
  read_for_defined m expired pos e =
      step-ne-none m (read_for_call expired) (back m.q) refl pos (rw (e, step) refl)
