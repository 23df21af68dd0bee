-- ===== src/Base/Search.antt =====
-- The first place of a text in a text.
use Prim.Native.Nat.{ℕ, suc, ◌≤◌, ◌<◌}
use mathlib.Core.Path.{◌≡◌, refl}
use mathlib.Core.Option.{Option, none, some}
use mathlib.Core.List.{List, [], ◌∷◌, ◌++◌}
use native.Mathlib.Omega.{arith}
use pc_env_vu.Base.Tests.{◌==◌, if◌then◌else◌, ◌>>=◌}
use pc_env_vu.Base.Lists.{length}
use pc_env_vu.Base.Texts.{Text}
use pc_env_vu.Base.Marks.{Lacks, split_at}

-- What is behind a text at the start.
unfoldable pub behind : Text → Text → Option Text
behind [] t = some t
behind (x ∷ xs) [] = none
behind (x ∷ xs) (y ∷ t) = let rest = behind xs t in if x == y then rest else none

-- `find` of a text that is not empty: what is before its first place, and what is behind it.
unfoldable pub find_text : Text → Text → Option (Text × Text)
find_text text [] = none
find_text text (c ∷ t) =
    let later = find_text text t in
    elim (behind text (c ∷ t)) [
      | some rest ↦ some ([], rest)
      | none ↦ (later >>= λ (before, rest). some (c ∷ before, rest))
    ]

pub behind-append : (text t : Text) → behind text (text ++ t) ≡ some t
unfolding behind
behind-append [] t = refl
behind-append (x ∷ xs) t = ground (arith, behind-append xs t)

-- A text of two bytes or more is found behind bytes that are not its first one.
pub find_text-append :
    (x : ℕ) (xs before t : Text)
    → Lacks x before
    → find_text (x ∷ xs) (before ++ ((x ∷ xs) ++ t)) ≡ some (before, t)
unfolding find_text behind
find_text-append x xs [] t h = ground (arith, behind-append xs t)
find_text-append x xs (c ∷ before) t h = ground (arith, h.0, find_text-append x xs before t h.1)

pub length-split_at :
    (mark : ℕ) (xs : List ℕ) {a b : List ℕ} → split_at mark xs ≡ some (a, b) → length b < length xs
unfolding split_at
length-split_at mark [] e = absurd (ground (arith, e))
length-split_at mark (x ∷ xs) {a} {b} e =
    go (split_at mark xs) (λ a' b' r. length-split_at mark xs r) refl
  where
    go :
        (o : Option (List ℕ × List ℕ))
        → ((a' b' : List ℕ) → split_at mark xs ≡ some (a', b') → length b' < length xs)
        → split_at mark xs ≡ o
        → length b < suc (length xs)
    go none shorter r = ground (arith, e)
    go (some (a', b')) shorter r = ground (arith, e, shorter a' b' r)

length-behind : (text t : Text) {rest : Text} → behind text t ≡ some rest → length rest ≤ length t
unfolding behind
length-behind [] t e = ground (arith, e)
length-behind (x ∷ xs) [] e = absurd (ground (arith, e))
length-behind (x ∷ xs) (y ∷ t) {rest} e = go (behind xs t) (λ r. length-behind xs t) refl
  where
    go :
        (o : Option Text)
        → ((r : Text) → behind xs t ≡ some r → length r ≤ length t)
        → behind xs t ≡ o
        → length rest ≤ suc (length t)
    go none shorter q = absurd (ground (arith, e, q))
    go (some r) shorter q = ground (arith, e, q, shorter r q)

pub length-find_text :
    (text t : Text) {a b : Text} → find_text text t ≡ some (a, b) → length b ≤ length t
unfolding find_text
length-find_text text [] e = absurd (ground (arith, e))
length-find_text text (c ∷ t) {a} {b} e =
    go (behind text (c ∷ t)) (find_text text t) (λ a' b' r. length-find_text text t r) refl refl
  where
    go :
        (o : Option Text) (later : Option (Text × Text))
        → ((a' b' : Text) → find_text text t ≡ some (a', b') → length b' ≤ length t)
        → behind text (c ∷ t) ≡ o
        → find_text text t ≡ later
        → length b ≤ suc (length t)
    go (some r) later shorter q l = ground (arith, e, q, length-behind text (c ∷ t) q)
    go none none shorter q l = absurd (ground (arith, e, q, l))
    go none (some (a', b')) shorter q l = ground (arith, e, q, l, shorter a' b' l)
