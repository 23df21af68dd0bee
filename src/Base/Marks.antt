-- ===== src/Base/Marks.antt =====
-- The first place of a byte in a text.
use Prim.Native.Nat.{ℕ}
use mathlib.Core.Path.{◌≡◌, refl, subst}
use mathlib.Core.Logic.{◌≢◌, ◌⊎◌, inl, inr}
use mathlib.Core.Option.{Option, none, some}
use mathlib.Core.List.{List, [], ◌∷◌, ◌++◌}
use native.Mathlib.Omega.{arith}
use pc_env_vu.Base.Tests.{◌==◌, if◌then◌else◌, ◌>>=◌, Bool-cases}

-- A search for a mark of one byte (`memmem`, `find_first_of`): what is before the first one, and what is behind it.
unfoldable pub split_at : ℕ → List ℕ → Option (List ℕ × List ℕ)
split_at mark [] = none
split_at mark (x ∷ xs) =
    let rest = split_at mark xs in
    if x == mark then some ([], xs) else (rest >>= λ (before, behind). some (x ∷ before, behind))

-- No byte is `mark`.
abbrev pub Lacks : ℕ → List ℕ → Type 0
Lacks mark [] = Unit
Lacks mark (x ∷ xs) = (x ≢ mark) × Lacks mark xs

pub split_at-Lacks : (mark : ℕ) (xs : List ℕ) → Lacks mark xs → split_at mark xs ≡ none
unfolding split_at
split_at-Lacks mark [] h = refl
split_at-Lacks mark (x ∷ xs) h = ground (arith, split_at-Lacks mark xs h.1)

pub Lacks-split_at : (mark : ℕ) (xs : List ℕ) → split_at mark xs ≡ none → Lacks mark xs
unfolding split_at
Lacks-split_at mark [] e = tt
Lacks-split_at mark (x ∷ xs) e =
    ((λ q. absurd (ground (arith, e, q))), Lacks-split_at mark xs (ground (arith, e)))

pub split_at_found :
    (mark : ℕ) (xs ys : List ℕ) → Lacks mark xs → split_at mark (xs ++ (mark ∷ ys)) ≡ some (xs, ys)
unfolding split_at
split_at_found mark [] ys h = ground arith
split_at_found mark (x ∷ xs) ys h = ground (arith, split_at_found mark xs ys h.1)

-- The mark is the first byte, or the first mark of the rest.
split_at_step :
    (mark x : ℕ) (xs : List ℕ) (o : Option (List ℕ × List ℕ)) {before behind : List ℕ}
    → split_at mark xs ≡ o
    → split_at mark (x ∷ xs) ≡ some (before, behind)
    → (xs ≡ behind) ⊎ ((b : List ℕ) × (o ≡ some (b, behind)))
unfolding split_at
split_at_step mark x xs none r e = inl (ground arith)
split_at_step mark x xs (some (b, c)) r e = elim (Bool-cases (x == mark)) [
  | inl hit ↦ inl (ground arith)
  | inr miss ↦ inr (b, ground arith)
]

-- What is behind a mark lacks what the whole lacks.
pub behind-Lacks :
    (mark other : ℕ) (xs : List ℕ) {before behind : List ℕ}
    → Lacks other xs
    → split_at mark xs ≡ some (before, behind)
    → Lacks other behind
unfolding split_at
behind-Lacks mark other [] h e = absurd (ground (arith, e))
behind-Lacks mark other (x ∷ xs) h e = elim (split_at_step mark x xs _ refl e) [
  | inl same ↦ subst (Lacks other) same h.1
  | inr (b, r) ↦ behind-Lacks mark other xs h.1 r
]

pub Lacks-append :
    (mark : ℕ) (xs ys : List ℕ) → Lacks mark xs → Lacks mark ys → Lacks mark (xs ++ ys)
Lacks-append mark [] ys h k = k
Lacks-append mark (x ∷ xs) ys h k = (h.0, Lacks-append mark xs ys h.1 k)
