-- ===== src/Base64/RoundTrip.antt =====
-- Decoding gives back what was encoded.
use pc_env_vu.Base.{
  ℕ, zero, suc, ◌+◌, ◌-◌, ◌*◌, ◌/◌, ◌≤◌, ◌<◌, ◌≡◌, refl, ap, ◌∙◌, false, some, List, [], ◌∷◌, ◌++◌,
  arith, length, ◌==◌, ==_iff, not, tabulate, tabulate-apply, mul_size, sub_size, le→ltb,
}
use pc_env_vu.Base64.{
  Alphabet, standard, digits_first, pad, first, second_high, second, third_high, third, fourth,
  encode, find, decode_from, decode, emit, byte_0, byte_1, byte_2,
}
use pc_env_vu.Base64.Sextets.{
  first-eq, second_high-eq, third_high-eq, fourth-eq, second-eq, third-eq, byte_0-eq, byte_1-eq,
  byte_2-eq,
}
use pc_env_vu.Base64.Encode.{groups, groups-eq, text, encode-text}

-- The search finds each of the 64 characters, and `=` is none of them.
pub record IsAlphabet (a : Alphabet) : Type 0 where
  pub finds : (k : ℕ) → k < 64 → find a (a k) ≡ k
  pub unpadded : (k : ℕ) → k < 64 → (a k == pad) ≡ false

pub standard-IsAlphabet : IsAlphabet standard
unfolding standard find tabulate
standard-IsAlphabet = record {
  finds = λ k lt.
      (==_iff (find standard (standard k)) k).0
        (tabulate-apply (λ k. find standard (standard k) == k) {count = 64} refl k lt);
  unpadded =
      λ k lt. ground (arith, tabulate-apply (λ k. not (standard k == pad)) {count = 64} refl k lt);
}

pub digits_first-IsAlphabet : IsAlphabet digits_first
unfolding digits_first find tabulate
digits_first-IsAlphabet = record {
  finds = λ k lt.
      (==_iff (find digits_first (digits_first k)) k).0
        (tabulate-apply (λ k. find digits_first (digits_first k) == k) {count = 64} refl k lt);
  unpadded = λ k lt.
      ground (arith, tabulate-apply (λ k. not (digits_first k == pad)) {count = 64} refl k lt);
}

abbrev pub AllBytes : List ℕ → Type 0
AllBytes [] = Unit
AllBytes (x ∷ xs) = (x < 256) × AllBytes xs

module _ {x y z : ℕ} (hx : x < 256) (hy : y < 256) (hz : z < 256) where
  pub byte_0-second : byte_0 (first x) (second x y) ≡ x
  byte_0-second = omega (
    arith,
    first-eq x hx,
    second-eq x y hx hy,
    byte_0-eq (first x) (second x y) (omega (arith, first-eq x hx))
        (omega (arith, second-eq x y hx hy)),
  )

  pub byte_1-third : byte_1 (second x y) (third y z) ≡ y
  byte_1-third = omega (
    arith,
    second-eq x y hx hy,
    third-eq y z hy hz,
    byte_1-eq (second x y) (third y z) (omega (arith, second-eq x y hx hy))
        (omega (arith, third-eq y z hy hz)),
  )

  pub byte_2-fourth : byte_2 (third y z) (fourth z) ≡ z
  byte_2-fourth = omega (
    arith,
    third-eq y z hy hz,
    fourth-eq z hz,
    byte_2-eq (third y z) (fourth z) (omega (arith, third-eq y z hy hz))
        (omega (arith, fourth-eq z hz)),
  )

module _ {x y : ℕ} (hx : x < 256) (hy : y < 256) where
  byte_0-second_high : byte_0 (first x) (second_high x) ≡ x
  byte_0-second_high = omega (
    arith,
    first-eq x hx,
    second_high-eq x hx,
    byte_0-eq (first x) (second_high x) (omega (arith, first-eq x hx))
        (omega (arith, second_high-eq x hx)),
  )

  byte_1-third_high : byte_1 (second x y) (third_high y) ≡ y
  byte_1-third_high = omega (
    arith,
    second-eq x y hx hy,
    third_high-eq y hy,
    byte_1-eq (second x y) (third_high y) (omega (arith, second-eq x y hx hy))
        (omega (arith, third_high-eq y hy)),
  )

pub first-lt : {x : ℕ} → x < 256 → first x < 64
first-lt {x} hx = omega (arith, first-eq x hx)

pub second_high-lt : {x : ℕ} → x < 256 → second_high x < 64
second_high-lt {x} hx = omega (arith, second_high-eq x hx)

pub second-lt : {x y : ℕ} → x < 256 → y < 256 → second x y < 64
second-lt {x} {y} hx hy = omega (arith, second-eq x y hx hy)

pub third_high-lt : {y : ℕ} → y < 256 → third_high y < 64
third_high-lt {y} hy = omega (arith, third_high-eq y hy)

pub third-lt : {y z : ℕ} → y < 256 → z < 256 → third y z < 64
third-lt {y} {z} hy hz = omega (arith, third-eq y z hy hz)

pub fourth-lt : {z : ℕ} → z < 256 → fourth z < 64
fourth-lt {z} hz = omega (arith, fourth-eq z hz)

module _ {a : Alphabet} (ok : IsAlphabet a) (size : ℕ) where
  -- One whole group, before what the loop does with the next.
  pub decode_group :
      (j left : ℕ) (x y z : ℕ) (tail : List ℕ)
      → x < 256
      → y < 256
      → z < 256
      → j + 3 ≤ size
      → decode_from a size j
          (suc left)
          (a (first x) ∷ a (second x y) ∷ a (third y z) ∷ a (fourth z) ∷ tail)
        ≡ emit size j (x ∷ y ∷ z ∷ []) (decode_from a size (j + 3) (suc left - 4) tail)
  unfolding decode_from
  decode_group j left x y z tail hx hy hz room =
      rw
        (
          ok.finds (first x) (first-lt hx),
          ok.finds (second x y) (second-lt hx hy),
          ok.finds (third y z) (third-lt hy hz),
          ok.finds (fourth z) (fourth-lt hz),
          byte_0-second hx hy hz,
          byte_1-third hx hy hz,
          byte_2-fourth hx hy hz,
        )
        (ground
          (arith, ok.unpadded (third y z) (third-lt hy hz), ok.unpadded (fourth z) (fourth-lt hz)))

  pub decode_two :
      (j left : ℕ) (x y : ℕ) (tail : List ℕ)
      → x < 256
      → y < 256
      → j + 2 ≤ size
      → decode_from a size j
          (suc left)
          (a (first x) ∷ a (second x y) ∷ a (third_high y) ∷ pad ∷ tail)
        ≡ some (j + 2, x ∷ y ∷ [])
  unfolding decode_from
  decode_two j left x y tail hx hy room =
      rw
        (
          ok.finds (first x) (first-lt hx),
          ok.finds (second x y) (second-lt hx hy),
          ok.finds (third_high y) (third_high-lt hy),
          byte_0-second hx hy hy,
          byte_1-third_high hx hy,
        )
        (ground (arith, ok.unpadded (third_high y) (third_high-lt hy)))

  pub decode_one :
      (j left : ℕ) (x : ℕ) (tail : List ℕ)
      → x < 256
      → j + 1 ≤ size
      → decode_from a size j (suc left) (a (first x) ∷ a (second_high x) ∷ pad ∷ pad ∷ tail)
        ≡ some (j + 1, x ∷ [])
  unfolding decode_from
  decode_one j left x tail hx room =
      rw
        (
          ok.finds (first x) (first-lt hx),
          ok.finds (second_high x) (second_high-lt hx),
          byte_0-second_high hx hx,
        )
        (ground arith)

  -- The loop on a text, whatever stands behind it.
  pub decode_from-text :
      (rest : List ℕ) (j left : ℕ) (bin : List ℕ)
      → left ≡ 4 * groups bin
      → AllBytes bin
      → j + length bin ≤ size
      → decode_from a size j left (text a bin ++ rest) ≡ some (j + length bin, bin)
  decode_from-text rest j zero [] e h room = unfold decode_from in ground arith
  decode_from-text rest j (suc left) [] e h room = absurd (omega arith)
  decode_from-text rest j zero (x ∷ []) e h room = absurd (omega arith)
  decode_from-text rest j (suc left) (x ∷ []) e h room = decode_one j left x rest h.0 room
  decode_from-text rest j zero (x ∷ y ∷ []) e h room = absurd (omega arith)
  decode_from-text rest j (suc left) (x ∷ y ∷ []) e h room =
      decode_two j left x y rest h.0 h.1.0 room
  decode_from-text rest j zero (x ∷ y ∷ z ∷ xs) e h room = absurd (omega arith)
  decode_from-text rest j (suc left) (x ∷ y ∷ z ∷ xs) e h room =
      decode_group j left x y z (text a xs ++ rest) h.0 h.1.0 h.1.1.0 (omega arith)
      ∙ ground (arith, decode_from-text rest (j + 3) (suc left - 4) xs)

-- The test at the entry lets `left` characters pass that make `3 * (left / 4 - 1)` bytes.
pub decode_enters :
    (a : Alphabet) (size left : ℕ) (out : List ℕ)
    → 4 ≤ left
    → (left / 4 - 1) * 3 ≤ size
    → decode a size left out ≡ decode_from a size 0 left out
unfolding decode
decode_enters a size left out some_text room =
    let passes : mul_size (sub_size (left / 4) 1) 3 ≤ size = omega arith in
    rw (le→ltb size (mul_size (sub_size (left / 4) 1) 3) passes)

-- For either alphabet, one byte or more, encoded into a buffer of at most 2^31 bytes that has room
-- for their text, decode, into a buffer of at least their number, to themselves and their number.
pub decode-encode :
    {a : Alphabet} (text_size size : ℕ) (bin : List ℕ)
    → IsAlphabet a
    → AllBytes bin
    → 0 < length bin
    → 4 * ((length bin + 2) / 3) < text_size
    → length bin ≤ size
    → (len : ℕ) × (out : List ℕ) × (encode a text_size bin ≡ some (len, out))
      × (decode a size len out ≡ some (length bin, bin))
decode-encode {a} text_size size bin ok h some_bytes fits room =
    let full : ℕ = 4 * ((length bin + 2) / 3) in
    (
      full,
      text a bin ++ (0 ∷ []),
      encode-text a text_size bin fits,
      decode_enters a size full (text a bin ++ (0 ∷ [])) (omega arith) (omega arith)
          ∙ decode_from-text ok size (0 ∷ []) 0 full bin (omega (arith, groups-eq bin)) h
              (omega arith)
          ∙ ap (λ n. some (n, bin)) {x = 0 + length bin} {y = length bin} (omega arith),
    )
