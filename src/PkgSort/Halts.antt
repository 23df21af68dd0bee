-- ===== src/PkgSort/Halts.antt =====
-- The recursion ends, also where packages depend on one another in a cycle.
use mathlib.Core.Path.{subst}
use pc_env_vu.Base.{
  ℕ, zero, suc, ◌≤◌, ◌<◌, ◌≡◌, refl, sym, inl, inr, Option, some, List, [], ◌∷◌, ◌++◌, true, false,
  arith, if◌then◌else◌, length, Text, same, contains, contains-append, contains-last, eq_of_same,
  Bool-cases,
}
use pc_env_vu.PkgSort.{get_pkg_deps, up_deps, up_active_list, get_pkg_active_list, sort_all}
use pc_env_vu.PkgSort.Ordered.{AllIn}

-- How many of the first texts are not among the second.
missing : List Text → List Text → ℕ
missing [] un = 0
missing (u ∷ us) un = let rest = missing us un in if contains un u then rest else suc rest

missing-le-length : (us un : List Text) → missing us un ≤ length us
unfolding missing
missing-le-length [] un = omega arith
missing-le-length (u ∷ us) un = ground (arith, missing-le-length us un)

missing-append-le : (us un : List Text) (i : Text) → missing us (un ++ (i ∷ [])) ≤ missing us un
unfolding missing
missing-append-le [] un i = omega arith
missing-append-le (u ∷ us) un i =
    ground (arith, contains-append un (i ∷ []) u, missing-append-le us un i)

missing-append-lt :
    (us un : List Text) (i : Text)
    → contains us i ≡ true
    → contains un i ≡ false
    → missing us (un ++ (i ∷ [])) < missing us un
unfolding missing contains
missing-append-lt [] un i h fresh = absurd (ground arith)
missing-append-lt (u ∷ us) un i h fresh = elim (Bool-cases (same u i)) [
  | inl hit ↦
      let new = subst (λ t. contains un t ≡ false) (sym (eq_of_same u i hit)) fresh in
      let there =
        subst (λ t. contains (un ++ (i ∷ [])) t ≡ true) (sym (eq_of_same u i hit))
          (contains-last un i) in
      rw new (rw there (omega (arith, missing-append-le us un i)))
  | inr miss ↦ ground (arith, contains-append un (i ∷ []) u, missing-append-lt us un i)
]

-- The list at the end of a visit.
abbrev finished : List Text → Text → List Text
finished active pkg = if contains active pkg then active else active ++ (pkg ∷ [])

module _ (cmd_res : Text → List Text) (us : List Text) where
  abbrev Total : ℕ → (Text → List Text → List Text → List Text → Option (List Text)) → Type 0
  Total n visit =
      (i : Text) (active un : List Text)
      → missing us un < n
      → (out : List Text) × (visit i (get_pkg_deps cmd_res i) active un ≡ some out)

  up_deps_returns :
      (ds active un : List Text)
      (visit : Text → List Text → List Text → List Text → Option (List Text)) (n : ℕ)
      → Total n visit
      → AllIn ds us
      → missing us un ≤ n
      → (out : List Text) × (up_deps cmd_res visit ds active un ≡ some out)
  unfolding up_deps
  up_deps_returns [] active un visit n total all few = (active, refl)
  up_deps_returns (i ∷ ds) active un visit n total all few = elim (Bool-cases (contains un i)) [
    | inl old ↦
        let (out, e) = up_deps_returns ds active un visit n total all.1 few in (out, rw old e)
    | inr fresh ↦ elim (Bool-cases (contains active i)) [
      | inl old ↦
          let (out, e) = up_deps_returns ds active un visit n total all.1 few in
          (out, rw fresh (rw old e))
      | inr new ↦
          let fewer = missing-append-lt us un i all.0 fresh in
          let (a1, e1) = total i active (un ++ (i ∷ [])) (omega (arith, fewer, few)) in
          let (out, e) =
            up_deps_returns ds a1 (un ++ (i ∷ [])) visit n total all.1
              (omega (arith, fewer, few)) in
          (out, rw fresh (rw new (rw e1 e)))
    ]
  ]

  module _ (closed : (p : Text) → AllIn (get_pkg_deps cmd_res p) us) where
    up_active_list_total :
        (fuel : ℕ) (pkg : Text) (active un : List Text)
        → missing us un < fuel
        → (out : List Text) × (up_active_list cmd_res fuel pkg (get_pkg_deps cmd_res pkg) active un
            ≡ some out)
    unfolding up_active_list
    up_active_list_total zero pkg active un lt = absurd (omega (arith, lt))
    up_active_list_total (suc k) pkg active un lt =
        let (a1, e1) =
          up_deps_returns (get_pkg_deps cmd_res pkg) active un (up_active_list cmd_res k) k
            (up_active_list_total k) (closed pkg) (omega (arith, lt)) in
        (finished a1 pkg, rw e1 refl)

    sort_all_total :
        (pkgs : List Text) (fuel : ℕ) (active : List Text)
        → length us < fuel
        → (out : List Text) × (sort_all cmd_res fuel pkgs active ≡ some out)
    unfolding sort_all get_pkg_active_list
    sort_all_total [] fuel active lt = (active, refl)
    sort_all_total (i ∷ pkgs) fuel active lt =
        let (a1, e1) =
          up_active_list_total fuel i active (i ∷ [])
            (omega (arith, lt, missing-le-length us (i ∷ []))) in
        let (out, e) = sort_all_total pkgs fuel a1 lt in (out, rw e1 e)

-- Where all dependencies are among the packages `us`, calls nested one deeper than the number of these
-- are enough for any list of packages, whatever cycles there are.
pub sort_all_halts :
    (cmd_res : Text → List Text) (us pkgs : List Text) (fuel : ℕ)
    → ((p : Text) → AllIn (get_pkg_deps cmd_res p) us)
    → length us < fuel
    → (out : List Text) × (sort_all cmd_res fuel pkgs [] ≡ some out)
sort_all_halts cmd_res us pkgs fuel closed lt = sort_all_total cmd_res us closed pkgs fuel [] lt
