-- ===== src/FdOp/Front.antt =====
-- What `un_write` returns is what went out.
use mathlib.Core.List.{append_assoc}
use mathlib.Core.Path.{subst}
use pc_env_vu.Base.{
  ℕ, ◌+◌, ◌-◌, ◌≤◌, ◌≡◌, refl, ap, ◌∙◌, inl, inr, Option, none, some, List, [], ◌∷◌, ◌++◌, arith,
  ◌==◌, length, take, drop, length-take, length-drop, take-append-drop, length-append, Bool-cases,
  true, false,
}
use pc_env_vu.FdOp.{Call, Moved, amount, eintr, un_write_from, un_write}

-- No call moves more than the bytes that are left, `n` before the first.
abbrev pub Honest : ℕ → List Call → Type 0
Honest n [] = Unit
Honest n (c ∷ cs) = (amount c ≤ n) × Honest (n - amount c) cs

-- The count is that of the bytes that went out, which are the first of the buffer.
pub record IsFront (count : ℕ) (xs : List ℕ) (m : Moved) : Type 0 where
  pub rest : List ℕ
  pub counted : m.count ≡ count + length m.bytes
  pub front : m.bytes ++ rest ≡ xs

module _ (count : ℕ) (xs : List ℕ) (c : Call) (fits : amount c ≤ length xs) where
  last-IsFront :
      (cs : List Call)
      → IsFront count xs
          (record { count = count + amount c; bytes = take (amount c) xs; calls = cs })
  last-IsFront cs = record {
    rest = drop (amount c) xs;
    counted = omega (arith, length-take (amount c) xs);
    front = take-append-drop (amount c) xs;
  }

  again-IsFront :
      (m : Moved)
      → IsFront (count + amount c) (drop (amount c) xs) m
      → IsFront count xs (record m { bytes = take (amount c) xs ++ m.bytes })
  again-IsFront m f = record {
    rest = f.rest;
    counted =
        omega
          (arith, f.counted, length-take (amount c) xs, length-append (take (amount c) xs) m.bytes);
    front =
        append_assoc (take (amount c) xs) m.bytes f.rest
        ∙ ap (λ r. take (amount c) xs ++ r) f.front
        ∙ take-append-drop (amount c) xs;
  }

again_lem :
    (count : ℕ) (xs : List ℕ) (c : Call) (cs : List Call) (o : Option Moved) {m : Moved}
    → un_write_from (count + amount c) (drop (amount c) xs) cs ≡ o
    → (length (drop (amount c) xs) == 0) ≡ false
    → (c.errno == eintr) ≡ true
    → un_write_from count xs (c ∷ cs) ≡ some m
    → (m' : Moved) × (o ≡ some m') × (record m' { bytes = take (amount c) xs ++ m'.bytes } ≡ m)
unfolding un_write_from
again_lem count xs c cs none r more interrupted e = absurd (ground arith)
again_lem count xs c cs (some m') r more interrupted e = (m', refl, ground arith)

un_write_from-IsFront :
    (count : ℕ) (xs : List ℕ) (cs : List Call) {m : Moved}
    → Honest (length xs) cs
    → un_write_from count xs cs ≡ some m
    → IsFront count xs m
un_write_from-IsFront count xs [] h e = absurd (unfold un_write_from in cc)
un_write_from-IsFront count xs (c ∷ cs) {m} h e =
    elim (Bool-cases (length (drop (amount c) xs) == 0)) [
      | inl full ↦ subst (IsFront count xs) (last full) (last-IsFront count xs c h.0 cs)
      | inr more ↦ elim (Bool-cases (c.errno == eintr)) [
        | inl interrupted ↦
            let (m', r, same) = again_lem count xs c cs _ refl more interrupted e in
            subst (IsFront count xs) same (
              again-IsFront count xs c h.0 m' (
                un_write_from-IsFront (count + amount c) (drop (amount c) xs) cs
                  (subst (λ n. Honest n cs) {x = length xs - amount c}
                    {y = length (drop (amount c) xs)} (omega (arith, length-drop (amount c) xs))
                    h.1)
                  r))
        | inr over ↦ subst (IsFront count xs) (stopped more over) (last-IsFront count xs c h.0 cs)
      ]
    ]
  where
    ended : Moved
    ended = record { count = count + amount c; bytes = take (amount c) xs; calls = cs }

    last : (length (drop (amount c) xs) == 0) ≡ true → ended ≡ m
    last full = unfold un_write_from in ground arith

    stopped : (length (drop (amount c) xs) == 0) ≡ false → (c.errno == eintr) ≡ false → ended ≡ m
    stopped more over = unfold un_write_from in ground arith

-- Where no call moves more than it is offered, what the macro returns is the number of the bytes that
-- went out, and those are the first bytes of the buffer, in order.
pub un_write-IsFront :
    (xs : List ℕ) (cs : List Call) {m : Moved}
    → Honest (length xs) cs
    → un_write xs cs ≡ some m
    → IsFront 0 xs m
unfolding un_write
un_write-IsFront xs cs h e = un_write_from-IsFront 0 xs cs h e
