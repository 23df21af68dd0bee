-- ===== src/PkgSort/Ordered.antt =====
-- Lists in which each package stands behind its dependencies.
use mathlib.Core.List.{append_assoc, append-nil}
use mathlib.Core.Path.{subst}
use pc_env_vu.Base.{
  ℕ, ◌<◌, ◌≡◌, sym, List, [], ◌∷◌, ◌++◌, true, false, Text, contains, contains-left,
}
use pc_env_vu.PkgSort.{get_pkg_deps}

-- All texts of the first list are in the second.
abbrev pub AllIn : List Text → List Text → Type 0
AllIn [] seen = Unit
AllIn (d ∷ ds) seen = (contains seen d ≡ true) × AllIn ds seen

AllIn-append : (ds xs ys : List Text) → AllIn ds xs → AllIn ds (xs ++ ys)
AllIn-append [] xs ys h = tt
AllIn-append (d ∷ ds) xs ys h = (contains-left xs ys d h.0, AllIn-append ds xs ys h.1)

-- Each of the packages whose `rank` is below that of the package it is a dependency of: there is no cycle.
abbrev pub AllBelow : (Text → ℕ) → ℕ → List Text → Type 0
AllBelow rank r [] = Unit
AllBelow rank r (d ∷ ds) = (rank d < r) × AllBelow rank r ds

module _ (cmd_res : Text → List Text) where
  -- Behind `seen`, no package comes twice, and each comes behind its dependencies.
  abbrev pub IsOrdered : (seen : List Text) → List Text → Type 0
  IsOrdered seen [] = Unit
  IsOrdered seen (x ∷ xs) =
      (contains seen x ≡ false)
      × AllIn (get_pkg_deps cmd_res x) seen
      × IsOrdered (seen ++ (x ∷ [])) xs

  pub IsOrdered-append :
      (xs seen : List Text) (x : Text)
      → IsOrdered seen xs
      → contains (seen ++ xs) x ≡ false
      → AllIn (get_pkg_deps cmd_res x) (seen ++ xs)
      → IsOrdered seen (xs ++ (x ∷ []))
  IsOrdered-append [] seen x o new below = (
    subst (λ l. contains l x ≡ false) (append-nil seen) new,
    subst (AllIn (get_pkg_deps cmd_res x)) (append-nil seen) below,
    tt,
  )
  IsOrdered-append (y ∷ xs) seen x o new below = (
    o.0,
    o.1,
    IsOrdered-append xs (seen ++ (y ∷ [])) x o.2
        (subst (λ l. contains l x ≡ false) (sym (append_assoc seen (y ∷ []) xs)) new)
        (subst (AllIn (get_pkg_deps cmd_res x)) (sym (append_assoc seen (y ∷ []) xs)) below),
  )
