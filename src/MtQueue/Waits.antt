-- ===== src/MtQueue/Waits.antt =====
-- Which calls wait, and which give up.
use pc_env_vu.Base.{
  ◌≡◌, refl, ◌↔◌, ◌⊎◌, inl, inr, some, none, List, [], ◌∷◌, Bool, true, false, arith,
}
use pc_env_vu.MtQueue.{back, pop_back, MtQueue, returns, waits, read, read_for}

module _ {A : Type 0} where
  back-cons : (x : A) (q : List A) → (y : A) × (back (x ∷ q) ≡ some y)
  back-cons x [] = (x, refl)
  back-cons x (z ∷ q) = back-cons z q

  gives_up :
      (m : MtQueue A) (expired exited : Bool)
      → m.is_wait_was_exited ≡ exited
      → m.q ≡ []
      → (read_for expired m ≡ returns none m) ↔ ((expired ≡ true) × (exited ≡ true))
  unfolding read_for
  gives_up m false exited e n = (ground arith, ground arith)
  gives_up m true false e n = (ground arith, ground arith)
  gives_up m true true e n = (ground arith, ground arith)

  -- On an empty queue `read` waits, and `read_for` gives NULL exactly where its wait has run out after
  -- the exit state was set; on any other queue both give the oldest element and take it out.
  pub read_outcomes :
      (m : MtQueue A) (expired : Bool)
      → ((m.q ≡ [])
          × (read m ≡ waits)
          × ((read_for expired m ≡ returns none m)
              ↔ ((expired ≡ true) × (m.is_wait_was_exited ≡ true))))
        ⊎ ((x : A) × (back m.q ≡ some x)
            × (read m ≡ returns x (record m { q = pop_back m.q }))
            × (read_for expired m ≡ returns (some x) (record m { q = pop_back m.q })))
  unfolding read read_for
  read_outcomes m expired = go m.q refl
    where
      go :
          (q : List A)
          → m.q ≡ q
          → ((m.q ≡ [])
              × (read m ≡ waits)
              × ((read_for expired m ≡ returns none m)
                  ↔ ((expired ≡ true) × (m.is_wait_was_exited ≡ true))))
            ⊎ ((x : A) × (back m.q ≡ some x)
                × (read m ≡ returns x (record m { q = pop_back m.q }))
                × (read_for expired m ≡ returns (some x) (record m { q = pop_back m.q })))
      go [] e = inl (e, ground arith, gives_up m expired m.is_wait_was_exited refl e)
      go (x ∷ q) e = let (y, b) = back-cons x q in inr (y, rw e b, ground arith, ground arith)
