-- ===== src/Base/Words.antt =====
-- `size_t`, `char` and the shifts of C on bit patterns.
use Prim.Native.Nat.{ℕ, ◌+◌, ◌-◌, ◌*◌, ◌/◌, ◌%◌, ◌^◌, ◌<◌}
use mathlib.Core.Path.{◌≡◌}
use mathlib.Core.Bool.{Bool, false}
use native.Mathlib.Omega.{arith}
use pc_env_vu.Base.Tests.{leb, ltb, if◌then◌else◌}

-- `size_t` addition, subtraction and multiplication wrap at 64 bits. The subtrahend is below 2 ^ 64.
abbrev pub add_size : ℕ → ℕ → ℕ
add_size a b = (a + b) % 2 ^ 64

abbrev pub sub_size : ℕ → ℕ → ℕ
sub_size a b = (a + 2 ^ 64 - b) % 2 ^ 64

abbrev pub mul_size : ℕ → ℕ → ℕ
mul_size a b = (a * b) % 2 ^ 64

-- What `-1` is when a function returns it as a `size_t`.
abbrev pub size_max : ℕ
size_max = 2 ^ 64 - 1

-- A `char` is its bit pattern, below 256. It is signed, so `>>` copies the sign bit.
abbrev pub sar : ℕ → ℕ → ℕ
sar x k = if leb 128 x then x / 2 ^ k + 256 - 256 / 2 ^ k else x / 2 ^ k

-- `(char)(x << k)`
abbrev pub shl : ℕ → ℕ → ℕ
shl x k = x * 2 ^ k % 256

-- A value cut to an `int`: its bit pattern; whether that is below 0; and an `int` as it is compared with
-- a `size_t`.
abbrev pub to_int : ℕ → ℕ
to_int n = n % 2 ^ 32

abbrev pub is_negative : ℕ → Bool
is_negative r = leb (2 ^ 31) r

abbrev pub to_size : ℕ → ℕ
to_size r = if ltb r (2 ^ 31) then r else r + (2 ^ 64 - 2 ^ 32)

pub int_kept : (n : ℕ) → n < 2 ^ 31 → to_int n ≡ n
int_kept n few = omega (arith, few)

pub int_positive : (n : ℕ) → n < 2 ^ 31 → is_negative (to_int n) ≡ false
int_positive n few = ground (arith, few)
