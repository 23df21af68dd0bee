-- ===== src/PkgSort/Order.antt =====
-- In the sorted list each package stands behind its dependencies.
use mathlib.Core.List.{append_assoc, append-nil}
use mathlib.Core.Path.{subst}
use pc_env_vu.Base.{
  ℕ, zero, suc, ◌≤◌, ◌<◌, ◌≡◌, refl, sym, ap, ◌∙◌, ◌⊎◌, inl, inr, Option, some, List, [], ◌∷◌, ◌++◌,
  Bool, true, false, arith, if◌then◌else◌, Text, contains, contains-left, contains-last, same,
  eq_of_same, Bool-cases,
}
use pc_env_vu.PkgSort.Ordered.{AllIn, AllBelow, IsOrdered, IsOrdered-append}
use pc_env_vu.PkgSort.{get_pkg_deps, up_deps, up_active_list, get_pkg_active_list, sort_all}

module _ (cmd_res : Text → List Text) (rank : Text → ℕ) where
  -- The packages that are being visited: each is in the list already, or has at least the rank `r`.
  abbrev Grounded : List Text → ℕ → List Text → Type 0
  Grounded active r [] = Unit
  Grounded active r (u ∷ un) = ((contains active u ≡ true) ⊎ (r ≤ rank u)) × Grounded active r un

  -- What a visit leaves: an ordered list that starts with the old one.
  record Grown (active active' : List Text) : Type 0 where
    pub more : List Text
    pub grown : active' ≡ active ++ more
    pub ordered : IsOrdered cmd_res [] active'

  Grown-contains :
      {active active' : List Text} (x : Text)
      → Grown active active'
      → contains active x ≡ true
      → contains active' x ≡ true
  Grown-contains {active} x g h =
      subst (λ l. contains l x ≡ true) (sym g.grown) (contains-left active g.more x h)

  Grown-trans : {a b c : List Text} → Grown a b → Grown b c → Grown a c
  Grown-trans {a} g h = record {
    more = g.more ++ h.more;
    grown = h.grown ∙ ap (λ l. l ++ h.more) g.grown ∙ append_assoc a g.more h.more;
    ordered = h.ordered;
  }

  Grounded-mem :
      (un active : List Text) (r : ℕ) (i : Text)
      → Grounded active r un
      → rank i < r
      → contains un i ≡ true
      → contains active i ≡ true
  unfolding contains
  Grounded-mem [] active r i g lt m = absurd (ground arith)
  Grounded-mem (u ∷ un) active r i g lt m = elim (Bool-cases (same u i)) [
    | inl hit ↦ elim g.0 [
      | inl here ↦ subst (λ t. contains active t ≡ true) (eq_of_same u i hit) here
      | inr above ↦ absurd (omega (arith, ap rank (eq_of_same u i hit)))
    ]
    | inr miss ↦ Grounded-mem un active r i g.1 lt (ground arith)
  ]

  Grounded-next :
      (un : List Text) {active active' : List Text} (r s : ℕ) (i : Text)
      → Grounded active r un
      → Grown active active'
      → s ≤ r
      → (contains active' i ≡ true) ⊎ (s ≤ rank i)
      → Grounded active' s (un ++ (i ∷ []))
  Grounded-next [] r s i g grown le h = (h, tt)
  Grounded-next (u ∷ un) {active} {active'} r s i g grown le h =
      (next g.0, Grounded-next un r s i g.1 grown le h)
    where
      next : (contains active u ≡ true) ⊎ (r ≤ rank u) → (contains active' u ≡ true) ⊎ (s ≤ rank u)
      next (inl m) = inl (Grown-contains u grown m)
      next (inr above) = inr (omega arith)

  -- What a visit of `pkg` gives.
  abbrev Visited : (active : List Text) (pkg : Text) → Option (List Text) → Type 0
  Visited active pkg out =
      (active' : List Text) × (out ≡ some active')
      × Grown active active'
      × (contains active' pkg ≡ true)

  abbrev Visits : (n : ℕ) → (Text → List Text → List Text → List Text → Option (List Text)) → Type 0
  Visits n visit =
      (i : Text) (active un : List Text)
      → rank i < n
      → IsOrdered cmd_res [] active
      → Grounded active (rank i) un
      → Visited active i (visit i (get_pkg_deps cmd_res i) active un)

  up_deps-step :
      (visit : Text → List Text → List Text → List Text → Option (List Text)) (i : Text)
      (ds active un : List Text) {active' : List Text}
      → contains un i ≡ false
      → contains active i ≡ false
      → visit i (get_pkg_deps cmd_res i) active (un ++ (i ∷ [])) ≡ some active'
      → up_deps cmd_res visit (i ∷ ds) active un ≡ up_deps cmd_res visit ds active' (un ++ (i ∷ []))
  unfolding up_deps
  up_deps-step visit i ds active un fresh new e = rw fresh (rw new (rw e refl))

  up_deps-skip :
      (visit : Text → List Text → List Text → List Text → Option (List Text)) (i : Text)
      (ds active un : List Text)
      → (contains un i ≡ true) ⊎ (contains active i ≡ true)
      → up_deps cmd_res visit (i ∷ ds) active un ≡ up_deps cmd_res visit ds active un
  unfolding up_deps
  up_deps-skip visit i ds active un (inl old) = rw old refl
  up_deps-skip visit i ds active un (inr old) = ground arith

  -- What the loop over `ds` gives.
  abbrev Looped : (active ds : List Text) → Option (List Text) → Type 0
  Looped active ds out =
      (active' : List Text) × (out ≡ some active') × Grown active active' × AllIn ds active'

  Grown-self : {active : List Text} → IsOrdered cmd_res [] active → Grown active active
  Grown-self {active} o = record { more = []; grown = sym (append-nil active); ordered = o }

  Looped-skip :
      (visit : Text → List Text → List Text → List Text → Option (List Text)) (i : Text)
      (ds active un : List Text)
      → (contains un i ≡ true) ⊎ (contains active i ≡ true)
      → contains active i ≡ true
      → Looped active ds (up_deps cmd_res visit ds active un)
      → Looped active (i ∷ ds) (up_deps cmd_res visit (i ∷ ds) active un)
  Looped-skip visit i ds active un old here (a, e, g, all) =
      (a, up_deps-skip visit i ds active un old ∙ e, g, (Grown-contains i g here, all))

  up_deps-Looped :
      (ds active un : List Text)
      (visit : Text → List Text → List Text → List Text → Option (List Text)) (n r : ℕ)
      → Visits n visit
      → AllBelow rank r ds
      → r ≤ n
      → IsOrdered cmd_res [] active
      → Grounded active r un
      → Looped active ds (up_deps cmd_res visit ds active un)
  up_deps-Looped [] active un visit n r vis below le o g =
      (active, unfold up_deps in refl, Grown-self o, tt)
  up_deps-Looped (i ∷ ds) active un visit n r vis below le o g = elim (Bool-cases (contains un i)) [
    | inl old ↦
        Looped-skip visit i ds active un (inl old) (Grounded-mem un active r i g below.0 old)
          (up_deps-Looped ds active un visit n r vis below.1 le o g)
    | inr fresh ↦ elim (Bool-cases (contains active i)) [
      | inl old ↦
          Looped-skip visit i ds active un (inr old) old
            (up_deps-Looped ds active un visit n r vis below.1 le o g)
      | inr new ↦
          let (a1, e1, g1, m1) = vis i active (un ++ (i ∷ [])) (omega (arith, below.0)) o (
            Grounded-next un r (rank i) i g (Grown-self o) (omega (arith, below.0))
              (inr (omega arith))) in
          let (a2, e2, g2, all) =
            up_deps-Looped ds a1 (un ++ (i ∷ [])) visit n r vis below.1 le g1.ordered
              (Grounded-next un r r i g g1 (omega arith) (inl m1)) in
          (
            a2,
            up_deps-step visit i ds active un fresh new e1 ∙ e2,
            Grown-trans g1 g2,
            (Grown-contains i g2 m1, all),
          )
    ]
  ]

  -- The end of a visit: the package goes behind the others unless it is there.
  finish :
      (pkg : Text) (active : List Text) {a1 : List Text} (t : Bool)
      → contains a1 pkg ≡ t
      → Grown active a1
      → AllIn (get_pkg_deps cmd_res pkg) a1
      → Visited active pkg (some (if t then a1 else a1 ++ (pkg ∷ [])))
  finish pkg active {a1} true m g all = (a1, refl, g, m)
  finish pkg active {a1} false m g all = (
    a1 ++ (pkg ∷ []),
    refl,
    Grown-trans g (record {
      more = pkg ∷ [];
      grown = refl;
      ordered = IsOrdered-append cmd_res a1 [] pkg g.ordered m all;
    }),
    contains-last a1 pkg,
  )

  module _ (acyclic : (p : Text) → AllBelow rank (rank p) (get_pkg_deps cmd_res p)) where
    up_active_list-Visited :
        (fuel : ℕ) (pkg : Text) (active un : List Text)
        → rank pkg < fuel
        → IsOrdered cmd_res [] active
        → Grounded active (rank pkg) un
        → Visited active pkg (up_active_list cmd_res fuel pkg (get_pkg_deps cmd_res pkg) active un)
    unfolding up_active_list
    up_active_list-Visited zero pkg active un lt o g = absurd (omega (arith, lt))
    up_active_list-Visited (suc k) pkg active un lt o g =
        let (a1, e1, g1, all) =
          up_deps-Looped (get_pkg_deps cmd_res pkg) active un (up_active_list cmd_res k) k
            (rank pkg) (up_active_list-Visited k) (acyclic pkg) (omega (arith, lt)) o g in
        rw e1 (finish pkg active (contains a1 pkg) refl g1 all)

    sort_all-Looped :
        (pkgs : List Text) (fuel : ℕ) (active : List Text)
        → AllBelow rank fuel pkgs
        → IsOrdered cmd_res [] active
        → Looped active pkgs (sort_all cmd_res fuel pkgs active)
    unfolding sort_all get_pkg_active_list
    sort_all-Looped [] fuel active below o = (active, refl, Grown-self o, tt)
    sort_all-Looped (i ∷ pkgs) fuel active below o =
        let (a1, e1, g1, m1) =
          up_active_list-Visited fuel i active (i ∷ []) below.0 o (inr (omega arith), tt) in
        let (a2, e2, g2, all) = sort_all-Looped pkgs fuel a1 below.1 g1.ordered in
        (a2, rw e1 e2, Grown-trans g1 g2, (Grown-contains i g2 m1, all))

-- Where no package depends on itself through others, calls nested as deep as the ranks go are enough to
-- sort any list of packages, and the result has each of them, no package twice, and each package
-- behind all that `make depend` says it depends on.
pub sort_all-IsOrdered :
    (cmd_res : Text → List Text) (rank : Text → ℕ) (pkgs : List Text) (fuel : ℕ)
    → ((p : Text) → AllBelow rank (rank p) (get_pkg_deps cmd_res p))
    → AllBelow rank fuel pkgs
    → (out : List Text) × (sort_all cmd_res fuel pkgs [] ≡ some out)
      × IsOrdered cmd_res [] out
      × AllIn pkgs out
sort_all-IsOrdered cmd_res rank pkgs fuel acyclic below =
    let (out, e, g, all) = sort_all-Looped cmd_res rank acyclic pkgs fuel [] below tt in
    (out, e, g.ordered, all)
