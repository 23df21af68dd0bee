-- ===== src/Base/Texts.antt =====
-- Texts as lists of bytes: equality, membership in a list of texts, and the first place of a byte.
use Prim.Native.Nat.{ℕ}
use mathlib.Core.Path.{◌≡◌, refl}
use mathlib.Core.Bool.{Bool, true, false, ◌&&◌, ◌||◌}
use mathlib.Core.List.{List, [], ◌∷◌, ◌++◌}
use native.Mathlib.Omega.{arith}
use pc_env_vu.Base.Tests.{◌==◌}

abbrev pub Text : Type 0
Text = List ℕ

unfoldable pub same : Text → Text → Bool
same [] [] = true
same [] (y ∷ ys) = false
same (x ∷ xs) [] = false
same (x ∷ xs) (y ∷ ys) = let rest = same xs ys in x == y && rest

pub same_refl : (xs : Text) → same xs xs ≡ true
unfolding same
same_refl [] = refl
same_refl (x ∷ xs) = ground (arith, same_refl xs)

pub eq_of_same : (xs ys : Text) → same xs ys ≡ true → xs ≡ ys
unfolding same
eq_of_same [] [] e = refl
eq_of_same [] (y ∷ ys) e = absurd (ground arith)
eq_of_same (x ∷ xs) [] e = absurd (ground arith)
eq_of_same (x ∷ xs) (y ∷ ys) e = ground (arith, eq_of_same xs ys)

-- Some text of the list is the same.
unfoldable pub contains : List Text → Text → Bool
contains [] x = false
contains (y ∷ ys) x = same y x || contains ys x

pub contains-append :
    (xs ys : List Text) (x : Text) → contains (xs ++ ys) x ≡ (contains xs x || contains ys x)
unfolding contains
contains-append [] ys x = refl
contains-append (y ∷ xs) ys x = ground (arith, contains-append xs ys x)

pub contains-left :
    (xs ys : List Text) (x : Text) → contains xs x ≡ true → contains (xs ++ ys) x ≡ true
contains-left xs ys x e = ground (arith, contains-append xs ys x)

pub contains-last : (xs : List Text) (x : Text) → contains (xs ++ (x ∷ [])) x ≡ true
unfolding contains
contains-last xs x = ground (arith, contains-append xs (x ∷ []) x, same_refl x)
