-- ===== src/Base64/Sextets.antt =====
-- The masks and shifts of the coder as arithmetic, by tables over bytes and sextets.
use pc_env_vu.Base.{
  ℕ, ◌+◌, ◌*◌, ◌/◌, ◌%◌, ◌<◌, ◌≡◌, refl, true, arith, ◌==◌, ==_iff, bit_and, bit_or, sar, shl,
  tabulate, tabulate-apply,
}
use pc_env_vu.Base64.{first, second_high, second, third_high, third, fourth, byte_0, byte_1, byte_2}

-- A value checked at each number below `count`.
at :
    (f g : ℕ → ℕ) (count : ℕ)
    → tabulate (λ x. f x == g x) count ≡ true
    → (x : ℕ) → x < count
    → f x ≡ g x
at f g count full x below = (==_iff (f x) (g x)).0 (tabulate-apply (λ x. f x == g x) full x below)

-- `|` of fields that do not overlap is their sum.
join_4 : (a b : ℕ) → a < 64 → b < 4 → bit_or (a * 4) b ≡ a * 4 + b
unfolding tabulate
join_4 a b la lb =
    let split = at (λ x. bit_or (x / 4 * 4) (x % 4)) (λ x. x) 256 refl (a * 4 + b) (omega arith) in
    ground arith

join_16 : (a b : ℕ) → a < 16 → b < 16 → bit_or (a * 16) b ≡ a * 16 + b
unfolding tabulate
join_16 a b la lb =
    let split =
      at (λ x. bit_or (x / 16 * 16) (x % 16)) (λ x. x) 256 refl (a * 16 + b) (omega arith) in
    ground arith

join_64 : (a b : ℕ) → a < 4 → b < 64 → bit_or (a * 64) b ≡ a * 64 + b
unfolding tabulate
join_64 a b la lb =
    let split =
      at (λ x. bit_or (x / 64 * 64) (x % 64)) (λ x. x) 256 refl (a * 64 + b) (omega arith) in
    ground arith

-- The sextets of a group.
pub first-eq : (x : ℕ) → x < 256 → first x ≡ x / 4
unfolding first tabulate
first-eq = at first (λ x. x / 4) 256 refl

pub second_high-eq : (x : ℕ) → x < 256 → second_high x ≡ x % 4 * 16
unfolding second_high tabulate
second_high-eq = at second_high (λ x. x % 4 * 16) 256 refl

pub third_high-eq : (x : ℕ) → x < 256 → third_high x ≡ x % 16 * 4
unfolding third_high tabulate
third_high-eq = at third_high (λ x. x % 16 * 4) 256 refl

pub fourth-eq : (x : ℕ) → x < 256 → fourth x ≡ x % 64
unfolding fourth tabulate
fourth-eq = at fourth (λ x. x % 64) 256 refl

low_nibble : (y : ℕ) → y < 256 → bit_and (sar y 4) 0x0F ≡ y / 16
unfolding tabulate
low_nibble = at (λ y. bit_and (sar y 4) 0x0F) (λ y. y / 16) 256 refl

low_pair : (z : ℕ) → z < 256 → bit_and (sar z 6) 0x03 ≡ z / 64
unfolding tabulate
low_pair = at (λ z. bit_and (sar z 6) 0x03) (λ z. z / 64) 256 refl

pub second-eq : (x y : ℕ) → x < 256 → y < 256 → second x y ≡ x % 4 * 16 + y / 16
unfolding second
second-eq x y hx hy = ground (
  arith,
  second_high-eq x hx,
  low_nibble y hy,
  join_16 (x % 4) (y / 16) (omega arith) (omega arith),
)

pub third-eq : (y z : ℕ) → y < 256 → z < 256 → third y z ≡ y % 16 * 4 + z / 64
unfolding third
third-eq y z hy hz =
    ground (
      arith,
      third_high-eq y hy,
      low_pair z hz,
      join_4 (y % 16) (z / 64) (omega arith) (omega arith),
    )

-- The bytes of a group of sextets.
high_six : (t : ℕ) → t < 64 → bit_and (shl t 2) 0xFC ≡ t * 4
unfolding tabulate
high_six = at (λ t. bit_and (shl t 2) 0xFC) (λ t. t * 4) 64 refl

low_two : (t : ℕ) → t < 64 → bit_and (sar t 4) 0x03 ≡ t / 16
unfolding tabulate
low_two = at (λ t. bit_and (sar t 4) 0x03) (λ t. t / 16) 64 refl

high_four : (t : ℕ) → t < 64 → bit_and (shl t 4) 0xF0 ≡ t % 16 * 16
unfolding tabulate
high_four = at (λ t. bit_and (shl t 4) 0xF0) (λ t. t % 16 * 16) 64 refl

low_four : (t : ℕ) → t < 64 → bit_and (sar t 2) 0x0F ≡ t / 4
unfolding tabulate
low_four = at (λ t. bit_and (sar t 2) 0x0F) (λ t. t / 4) 64 refl

high_two : (t : ℕ) → t < 64 → bit_and (shl t 6) 0xF0 ≡ t % 4 * 64
unfolding tabulate
high_two = at (λ t. bit_and (shl t 6) 0xF0) (λ t. t % 4 * 64) 64 refl

low_six : (t : ℕ) → t < 64 → bit_and t 0x3F ≡ t
unfolding tabulate
low_six = at (λ t. bit_and t 0x3F) (λ t. t) 64 refl

pub byte_0-eq : (t u : ℕ) → t < 64 → u < 64 → byte_0 t u ≡ t * 4 + u / 16
unfolding byte_0
byte_0-eq t u ha hb =
    ground (arith, high_six t ha, low_two u hb, join_4 t (u / 16) (omega arith) (omega arith))

pub byte_1-eq : (u v : ℕ) → u < 64 → v < 64 → byte_1 u v ≡ u % 16 * 16 + v / 4
unfolding byte_1
byte_1-eq u v ha hb =
    ground
      (arith, high_four u ha, low_four v hb, join_16 (u % 16) (v / 4) (omega arith) (omega arith))

pub byte_2-eq : (v w : ℕ) → v < 64 → w < 64 → byte_2 v w ≡ v % 4 * 64 + w
unfolding byte_2
byte_2-eq v w ha hb =
    ground (arith, high_two v ha, low_six w hb, join_64 (v % 4) w (omega arith) (omega arith))
