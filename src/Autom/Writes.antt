-- ===== src/Autom/Writes.antt =====
-- Pieces written one by one.
use pc_env_vu.Base.{
  ℕ, ◌+◌, ◌<◌, ◌^◌, ◌≡◌, refl, sym, true, Option, none, some, List, [], ◌∷◌, ◌++◌, arith, length,
  ◌>>=◌, Block, length-append,
}
use mathlib.Core.List.{append_assoc, append-nil}
use mathlib.Core.Option.{some_inj}
use mathlib.Core.Path.{subst}
use pc_env_vu.Autom.{Autom, create, write}
use pc_env_vu.Autom.Content.{Holds, Reallocates, write-Written}

-- The buffer that `autom_create` makes when it is given none holds nothing.
pub created-Holds : (n : ℕ) {a : Autom} → create true true none n ≡ some a → Holds a []
unfolding create
created-Holds n {a} e =
    subst (λ o. Holds o []) (some_inj.0 e)
      (record {
        block = record { size = n; byte = λ i. 0 };
        at_head = refl;
        counted = refl;
        fits = omega arith;
        room = omega arith;
        content = refl;
      })

-- Writes of the pieces in turn, by a caller that stops at the first that fails.
pub write_all : (Option Block → ℕ → Option Block) → Autom → List (List ℕ) → Option Autom
write_all realloc a [] = some a
write_all realloc a (ys ∷ yss) =
    write realloc a ys >>= λ (n, a'). elim n [ none ↦ none | some m ↦ write_all realloc a' yss ]

abbrev pub concat : List (List ℕ) → List ℕ
concat [] = []
concat (ys ∷ yss) = ys ++ concat yss

write_all-Holds :
    (yss : List (List ℕ)) (realloc : Option Block → ℕ → Option Block) {a : Autom} {xs : List ℕ}
    → Reallocates realloc
    → Holds a xs
    → length xs + length (concat yss) + 1 < 2 ^ 63
    → (a' : Autom) × (write_all realloc a yss ≡ some a') × Holds a' (xs ++ concat yss)
unfolding write_all
write_all-Holds [] realloc {a} {xs} grows h small =
    (a, refl, subst (Holds a) (sym (append-nil xs)) h)
write_all-Holds (ys ∷ yss) realloc {a} {xs} grows h small =
    let (a1, e1, w1) =
      write-Written realloc ys grows h (omega (arith, length-append ys (concat yss))) in
    let (a2, e2, h2) =
      write_all-Holds yss realloc grows w1.holds
        (omega (arith, length-append ys (concat yss), length-append xs ys)) in
    (a2, rw e1 e2, subst (Holds a2) (append_assoc xs ys (concat yss)) h2)

-- Where `realloc` gives a block, pieces written one by one to a buffer that `autom_create` made are
-- all taken, and it holds them one behind the other.
pub created_takes_all :
    (realloc : Option Block → ℕ → Option Block) (n : ℕ) {a : Autom} (yss : List (List ℕ))
    → Reallocates realloc
    → create true true none n ≡ some a
    → length (concat yss) + 1 < 2 ^ 63
    → (a' : Autom) × (write_all realloc a yss ≡ some a') × Holds a' (concat yss)
created_takes_all realloc n yss grows e small =
    write_all-Holds yss realloc grows (created-Holds n e) (omega arith)
