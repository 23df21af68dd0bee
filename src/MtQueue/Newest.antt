-- ===== src/MtQueue/Newest.antt =====
-- `cycWrite` keeps the elements that came last, `write` those that came first.
use mathlib.Core.List.{reverse, reverse-cons}
use pc_env_vu.Base.{
  zero, suc, sym, ◌∙◌, length-append, true, false, Bool, ◌≤◌, ◌<◌, ◌≡◌, refl, ap, inl, inr, Option,
  none, some, List, [], ◌∷◌, ◌++◌, arith, leb, length, take, take_whole, take_front, Bool-cases, ℕ,
}
use pc_env_vu.MtQueue.{MtQueue, back, pop_back, write, cyc_write, returns}

module _ {A : Type 0} where
  take-take : (n m : ℕ) (q : List A) → n ≤ m → take n (take m q) ≡ take n q
  take-take zero m q le = refl
  take-take (suc n) zero q le = absurd (omega (arith, le))
  take-take (suc n) (suc m) [] le = refl
  take-take (suc n) (suc m) (x ∷ q) le = ap (λ r. x ∷ r) (take-take n m q (omega (arith, le)))

  pub take-append-take :
      (n m : ℕ) (xs q : List A) → n ≤ m → take n (xs ++ take m q) ≡ take n (xs ++ q)
  take-append-take n m [] q le = take-take n m q le
  take-append-take zero m (x ∷ xs) q le = refl
  take-append-take (suc n) m (x ∷ xs) q le =
      ap (λ r. x ∷ r) (take-append-take n m xs q (omega (arith, le)))

  take-pop_back : (x : A) (q : List A) → take (length q) (x ∷ q) ≡ pop_back (x ∷ q)
  take-pop_back x [] = refl
  take-pop_back x (y ∷ q) = ap (λ r. x ∷ r) (take-pop_back y q)

  back-some : (x : A) (q : List A) → (old : A) × (back (x ∷ q) ≡ some old)
  back-some x [] = (x, refl)
  back-some x (y ∷ q) = back-some y q

  -- Onto a queue within its bound, `cycWrite` puts an element in front and keeps the last ones.
  pub cyc_write-take :
      (m : MtQueue A) (x : A)
      → 0 < m.max_count
      → length m.q ≤ m.max_count
      → (old : Option A) × (cyc_write m x
          ≡ returns old (record m { q = take m.max_count (x ∷ m.q) }))
  unfolding cyc_write
  cyc_write-take m x pos few = go m.q m.max_count refl refl
    where
      go :
          (q : List A) (n : ℕ)
          → m.q ≡ q
          → m.max_count ≡ n
          → (old : Option A) × (cyc_write m x
              ≡ returns old (record m { q = take m.max_count (x ∷ m.q) }))
      go q zero e f = absurd (omega (arith, pos, f))
      go [] (suc n) e f = (none, ground (arith, take_whole m.max_count (x ∷ m.q)))
      go (y ∷ q) (suc n) e f = elim (Bool-cases (leb m.max_count (length m.q))) [
        | inl full ↦
            let (old, b) = back-some y q in (some old, ground (arith, e, f, b, take-pop_back y q))
        | inr room ↦ (none, ground (arith, take_whole m.max_count (x ∷ m.q)))
      ]

  pub length-reverse : (xs : List A) → length (reverse xs) ≡ length xs
  length-reverse [] = refl
  length-reverse (x ∷ xs) =
      ap length (reverse-cons x xs)
      ∙ omega (arith, length-append (reverse xs) (x ∷ []), length-reverse xs)

  pub take-take_append : (n : ℕ) (xs ys : List A) → take n (take n xs ++ ys) ≡ take n (xs ++ ys)
  take-take_append zero xs ys = refl
  take-take_append (suc n) [] ys = refl
  take-take_append (suc n) (x ∷ xs) ys = ap (λ r. x ∷ r) (take-take_append n xs ys)

  -- Onto a queue within its bound, `write` puts an element in front where there is room.
  pub write-take :
      (m : MtQueue A) (x : A)
      → length m.q ≤ m.max_count
      → (ok : Bool) × (q : List A) × (write m x ≡ returns ok (record m { q = q }))
        × (reverse q ≡ take m.max_count (reverse m.q ++ (x ∷ [])))
  unfolding write
  write-take m x few = elim (Bool-cases (leb m.max_count (length m.q))) [
    | inl full ↦ (
      false,
      m.q,
      rw full refl,
      sym (take_front m.max_count (reverse m.q) (x ∷ []) (ground (arith, length-reverse m.q))),
    )
    | inr room ↦ (
      true,
      x ∷ m.q,
      rw room refl,
      reverse-cons x m.q
          ∙ sym (
              take_whole m.max_count (reverse m.q ++ (x ∷ []))
                (ground (arith, length-reverse m.q, length-append (reverse m.q) (x ∷ [])))),
    )
  ]
