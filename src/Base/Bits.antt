-- ===== src/Base/Bits.antt =====
-- Facts about `&` and `|` over small ranges, by a table of every value.
use Prim.Native.Nat.{ℕ, zero, suc, ◌<◌}
use mathlib.Core.Path.{◌≡◌}
use mathlib.Core.Bool.{Bool, true, ◌&&◌}
use native.Mathlib.Omega.{arith}

-- The test at each of the first `count` numbers.
unfoldable pub tabulate : (ℕ → Bool) → ℕ → Bool
tabulate test zero = true
tabulate test (suc count) = tabulate test count && test count

pub tabulate-apply :
    (test : ℕ → Bool) {count : ℕ} → tabulate test count ≡ true → (k : ℕ) → k < count → test k ≡ true
unfolding tabulate
tabulate-apply test {count = zero} full k below = elim below [ ]
tabulate-apply test {count = suc count} full k below =
    ground (arith, tabulate-apply test {count = count} (ground arith) k)
