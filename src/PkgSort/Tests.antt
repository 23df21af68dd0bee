-- ===== src/PkgSort/Tests.antt =====
-- Runs of the sorter, and its theorems at them.
use pc_env_vu.Base.{
  ℕ, ◌≡◌, refl, some, List, [], ◌∷◌, Bool, true, false, arith, Text, contains, same,
}
use pc_env_vu.PkgSort.{
  get_pkg_deps, unique, fields, answer, starts_with, sort_all, up_active_list, get_pkg_active_list,
}
use pc_env_vu.PkgSort.Ordered.{AllIn, AllBelow, IsOrdered}
use pc_env_vu.PkgSort.Order.{sort_all-IsOrdered}
use pc_env_vu.PkgSort.Halts.{sort_all_halts}

abbrev a : Text
a = b'a' ∷ []

abbrev b : Text
b = b'b' ∷ []

abbrev c : Text
c = b'c' ∷ []

-- `a` depends on `b` and `c`, `b` on `c`; the first line is one of make.
abbrev choose : (is_a is_b : Bool) → List Text
choose true is_b = (b'm' ∷ b'a' ∷ b'k' ∷ b'e' ∷ b':' ∷ []) ∷ (b'b' ∷ b' ' ∷ b'c' ∷ []) ∷ []
choose false true = c ∷ []
choose false false = [] ∷ []

abbrev printed : Text → List Text
printed p = choose (same p a) (same p b)

sorted : sort_all printed 4 (a ∷ b ∷ []) [] ≡ some (c ∷ b ∷ a ∷ [])
unfolding sort_all get_pkg_active_list up_active_list get_pkg_deps contains same starts_with
sorted = refl

abbrev rank_of : (is_a is_b : Bool) → ℕ
rank_of true is_b = 2
rank_of false true = 1
rank_of false false = 0

abbrev rank : Text → ℕ
rank p = rank_of (same p a) (same p b)

choose-AllBelow :
    (is_a is_b : Bool)
    → AllBelow rank (rank_of is_a is_b) (unique (fields [] (answer (choose is_a is_b))))
unfolding unique fields answer starts_with same
choose-AllBelow true is_b = omega arith
choose-AllBelow false true = omega arith
choose-AllBelow false false = tt

printed_acyclic : (p : Text) → AllBelow rank (rank p) (get_pkg_deps printed p)
unfolding get_pkg_deps
printed_acyclic p = choose-AllBelow (same p a) (same p b)

sort_all-IsOrdered_example :
    (out : List Text) × (sort_all printed 3 (a ∷ b ∷ []) [] ≡ some out)
    × IsOrdered printed [] out
    × AllIn (a ∷ b ∷ []) out
unfolding same
sort_all-IsOrdered_example =
    sort_all-IsOrdered printed rank (a ∷ b ∷ []) 3 printed_acyclic (omega arith)

-- `a` and `b` depend on each other.
abbrev turn : (is_a is_b : Bool) → List Text
turn true is_b = b ∷ []
turn false true = a ∷ []
turn false false = [] ∷ []

abbrev circular : Text → List Text
circular p = turn (same p a) (same p b)

turn-AllIn : (is_a is_b : Bool) → AllIn (unique (fields [] (answer (turn is_a is_b)))) (a ∷ b ∷ [])
unfolding unique fields answer starts_with contains same
turn-AllIn true is_b = (refl, tt)
turn-AllIn false true = (refl, tt)
turn-AllIn false false = tt

circular_closed : (p : Text) → AllIn (get_pkg_deps circular p) (a ∷ b ∷ [])
unfolding get_pkg_deps
circular_closed p = turn-AllIn (same p a) (same p b)

sort_all_halts_example : (out : List Text) × (sort_all circular 3 (a ∷ b ∷ []) [] ≡ some out)
sort_all_halts_example =
    sort_all_halts circular (a ∷ b ∷ []) (a ∷ b ∷ []) 3 circular_closed (omega arith)
