-- ===== src/Base64/Encode.antt =====
-- What the encoder writes, and when it refuses.
use pc_env_vu.Base.{
  ℕ, suc, ◌+◌, ◌*◌, ◌/◌, ◌≤◌, ◌<◌, ◌≡◌, some, List, [], ◌∷◌, ◌++◌, arith, length, size_max, leb,
  Bool-cases, inl, inr,
}
use pc_env_vu.Base64.{
  Alphabet, pad, first, second_high, second, third_high, third, fourth, encode_from, encode,
}

-- The groups of three bytes, the last of which may be short.
abbrev pub groups : List ℕ → ℕ
groups [] = 0
groups (x ∷ []) = 1
groups (x ∷ y ∷ []) = 1
groups (x ∷ y ∷ z ∷ xs) = suc (groups xs)

pub groups-eq : (bin : List ℕ) → groups bin ≡ (length bin + 2) / 3
groups-eq [] = omega arith
groups-eq (x ∷ []) = omega arith
groups-eq (x ∷ y ∷ []) = omega arith
groups-eq (x ∷ y ∷ z ∷ xs) = omega (arith, groups-eq xs)

-- The Base64 text of some bytes.
abbrev pub text : Alphabet → List ℕ → List ℕ
text a [] = []
text a (x ∷ []) = a (first x) ∷ a (second_high x) ∷ pad ∷ pad ∷ []
text a (x ∷ y ∷ []) = a (first x) ∷ a (second x y) ∷ a (third_high y) ∷ pad ∷ []
text a (x ∷ y ∷ z ∷ xs) = a (first x) ∷ a (second x y) ∷ a (third y z) ∷ a (fourth z) ∷ text a xs

module _ (a : Alphabet) (size : ℕ) where
  encode_from-text :
      (j : ℕ) (bin : List ℕ)
      → j + 4 * groups bin < size
      → encode_from a size j bin ≡ some (j + 4 * groups bin, text a bin ++ (0 ∷ []))
  unfolding encode_from
  encode_from-text j [] fits = ground arith
  encode_from-text j (x ∷ []) fits = ground arith
  encode_from-text j (x ∷ y ∷ []) fits = ground arith
  encode_from-text j (x ∷ y ∷ z ∷ xs) fits = ground (arith, encode_from-text (j + 4) xs)

  encode_from-full :
      (j : ℕ) (bin : List ℕ)
      → j < size
      → size ≤ j + 4 * groups bin
      → (out : List ℕ) × (encode_from a size j bin ≡ some (size_max, out)) × (j + length out ≤ size)
  unfolding encode_from
  encode_from-full j [] room full = absurd (omega arith)
  encode_from-full j (x ∷ []) room full = (0 ∷ [], ground arith, omega arith)
  encode_from-full j (x ∷ y ∷ []) room full = (0 ∷ [], ground arith, omega arith)
  encode_from-full j (x ∷ y ∷ z ∷ xs) room full = elim (Bool-cases (leb size (j + 4))) [
    | inl stop ↦ (0 ∷ [], ground arith, omega arith)
    | inr more ↦
        let (out, e, fits) = encode_from-full (j + 4) xs (ground arith) (omega arith) in
        (
          a (first x) ∷ a (second x y) ∷ a (third y z) ∷ a (fourth z) ∷ out,
          ground arith,
          omega arith,
        )
  ]

-- If the text, four characters for each group of three bytes, and its end mark fit the buffer, the
-- encoder stays inside it, writes them and returns the length of the text.
pub encode-text :
    (a : Alphabet) (size : ℕ) (bin : List ℕ)
    → 4 * ((length bin + 2) / 3) < size
    → encode a size bin ≡ some (4 * ((length bin + 2) / 3), text a bin ++ (0 ∷ []))
unfolding encode
encode-text a size bin fits =
    let count = groups-eq bin in ground (arith, encode_from-text a size 0 bin)

-- If they do not, and the buffer has at least one byte, the encoder stays inside it and returns -1.
pub encode_full :
    (a : Alphabet) (size : ℕ) (bin : List ℕ)
    → 0 < size
    → size ≤ 4 * ((length bin + 2) / 3)
    → (out : List ℕ) × (encode a size bin ≡ some (size_max, out)) × (length out ≤ size)
unfolding encode
encode_full a size bin room full =
    let count = groups-eq bin in
    let (out, e, fits) = encode_from-full a size 0 bin room (omega arith) in (out, e, omega arith)
