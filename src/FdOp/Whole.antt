-- ===== src/FdOp/Whole.antt =====
-- A read of all that is there.
use mathlib.Core.Path.{subst}
use pc_env_vu.Base.{
  ℕ, ◌+◌, ◌-◌, ◌≡◌, refl, sym, ◌∙◌, some, List, [], ◌∷◌, arith, ◌==◌, length, drop, length-drop,
}
use pc_env_vu.FdOp.{Call, Moved, amount, un_write_from, un_write, un_read_from, un_read}
use pc_env_vu.FdOp.Front.{Honest, IsFront, un_write-IsFront}

-- Into a buffer of just the size of what is there, `un_read` moves what `un_write` would.
un_read_from-un_write_from :
    (size count : ℕ) (xs : List ℕ) (cs : List Call)
    → Honest (length xs) cs
    → size ≡ count + length xs
    → un_read_from size count xs cs ≡ un_write_from count xs cs
unfolding un_read_from un_write_from
un_read_from-un_write_from size count xs [] h e = refl
un_read_from-un_write_from size count xs (c ∷ cs) h e =
    let left : length (drop (amount c) xs) ≡ length xs - amount c = length-drop (amount c) xs in
    let tests : (count + amount c == size) ≡ (length (drop (amount c) xs) == 0) =
      ground (arith, left, e, h.0) in
    let rest =
      un_read_from-un_write_from size (count + amount c) (drop (amount c) xs) cs
        (subst (λ n. Honest n cs) (sym left) h.1) (omega (arith, e, h.0, left)) in
    rw tests (rw rest refl)

pub un_read-IsFront :
    (xs : List ℕ) (cs : List Call) {m : Moved}
    → Honest (length xs) cs
    → un_read (length xs) xs cs ≡ some m
    → IsFront 0 xs m
unfolding un_read un_write
un_read-IsFront xs cs h e =
    un_write-IsFront xs cs h
      (sym (un_read_from-un_write_from (length xs) 0 xs cs h (omega arith)) ∙ e)
