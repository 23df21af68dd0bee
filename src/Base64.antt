-- ===== src/Base64.antt =====
-- The Base64 coder of misc.c and its copy in fileBase64. Offsets are of type `int`: buffers are
-- below 2 ^ 31. Both write at consecutive offsets from 0, so the result is what is returned with the
-- list of what is written, and each write is checked against the buffer.
pub mod Sextets
pub mod Encode
pub mod RoundTrip
pub mod Overrun
pub mod Files
pub mod Lines
pub mod FileTrip
mod Tests
mod FileTests
use Prim.Native.Char.{code}
use Prim.Native.String.{String}
use pc_env_vu.Base.{
  ℕ, zero, suc, ◌+◌, ◌-◌, ◌/◌, ◌==◌, Option, none, some, List, [], ◌∷◌, ◌++◌, ltb, leb,
  if◌then◌else◌, ◌>>=◌, bit_and, bit_or, sar, shl, size_max, sub_size, mul_size, get_or, length,
}

abbrev pub codes : String → List ℕ
codes String.[] = []
codes (String.◌∷◌ c s) = code c ∷ codes s

-- `base64Char`: the character of each six bits.
abbrev pub Alphabet : Type 0
Alphabet = ℕ → ℕ

unfoldable pub standard : Alphabet
standard k = get_or (codes "ABCDEFGHIJKLMNOPQRSTUVWXYZabcdefghijklmnopqrstuvwxyz0123456789+/") k 0

unfoldable pub digits_first : Alphabet
digits_first k =
    get_or (codes "0123456789ABCDEFGHIJKLMNOPQRSTUVWXYZabcdefghijklmnopqrstuvwxyz+/") k 0

abbrev pub pad : ℕ
pad = b'='

-- The values of `current` for the bytes `x`, `y`, `z` of a group.
unfoldable pub first : ℕ → ℕ
first x = bit_and (sar x 2) 0x3F

unfoldable pub second_high : ℕ → ℕ
second_high x = bit_and (shl x 4) 0x30

unfoldable pub second : ℕ → ℕ → ℕ
second x y = bit_or (second_high x) (bit_and (sar y 4) 0x0F)

unfoldable pub third_high : ℕ → ℕ
third_high y = bit_and (shl y 2) 0x3C

unfoldable pub third : ℕ → ℕ → ℕ
third y z = bit_or (third_high y) (bit_and (sar z 6) 0x03)

unfoldable pub fourth : ℕ → ℕ
fourth z = bit_and z 0x3F

-- Writes of `cs` from offset `j` on, before what `k` writes.
abbrev pub emit : ℕ → ℕ → List ℕ → Option (ℕ × List ℕ) → Option (ℕ × List ℕ)
emit size j cs k =
    if leb (j + length cs) size then (k >>= λ (r, out). some (r, cs ++ out)) else none

module _ (a : Alphabet) where
  -- The loop at output offset `j`, on the bytes that are left. A full buffer gives `-1`.
  unfoldable pub encode_from : ℕ → ℕ → List ℕ → Option (ℕ × List ℕ)
  encode_from size j [] = emit size j (0 ∷ []) (some (j, []))
  encode_from size j (x ∷ []) =
      if leb size (j + 4)
      then emit size j (0 ∷ []) (some (size_max, []))
      else emit size j (a (first x) ∷ a (second_high x) ∷ pad ∷ pad ∷ [])
          (emit size (j + 4) (0 ∷ []) (some (j + 4, [])))
  encode_from size j (x ∷ y ∷ []) =
      if leb size (j + 4)
      then emit size j (0 ∷ []) (some (size_max, []))
      else emit size j (a (first x) ∷ a (second x y) ∷ a (third_high y) ∷ pad ∷ [])
          (emit size (j + 4) (0 ∷ []) (some (j + 4, [])))
  encode_from size j (x ∷ y ∷ z ∷ xs) =
      let rest = encode_from size (j + 4) xs in
      if leb size (j + 4)
      then emit size j (0 ∷ []) (some (size_max, []))
      else emit size j (a (first x) ∷ a (second x y) ∷ a (third y z) ∷ a (fourth z) ∷ []) rest

  unfoldable pub encode : ℕ → List ℕ → Option (ℕ × List ℕ)
  unfolding encode_from
  encode size bin = encode_from size 0 bin

  -- `for (k = 0; k < 64; k++) if (base64Char[k] == c) t = k;`, from 0xFF.
  find_loop : ℕ → ℕ → ℕ → ℕ → ℕ
  find_loop zero k c t = t
  find_loop (suc left) k c t = find_loop left (k + 1) c (if a k == c then k else t)

  unfoldable pub find : ℕ → ℕ
  unfolding find_loop
  find c = find_loop 64 0 c 0xFF

unfoldable pub byte_0 : ℕ → ℕ → ℕ
byte_0 t u = bit_or (bit_and (shl t 2) 0xFC) (bit_and (sar u 4) 0x03)

unfoldable pub byte_1 : ℕ → ℕ → ℕ
byte_1 u v = bit_or (bit_and (shl u 4) 0xF0) (bit_and (sar v 2) 0x0F)

unfoldable pub byte_2 : ℕ → ℕ → ℕ
byte_2 v w = bit_or (bit_and (shl v 6) 0xF0) (bit_and w 0x3F)

module _ (a : Alphabet) where
  -- The loop at output offset `j`, with `left` characters to go. The list is all that can be read
  -- from there on: the loop reads by fours, also past the end of the text.
  unfoldable pub decode_from : ℕ → ℕ → ℕ → List ℕ → Option (ℕ × List ℕ)
  decode_from size j zero text = some (j, [])
  decode_from size j (suc left) (p ∷ q ∷ r ∷ s ∷ text) =
      let rest = decode_from size (j + 3) (suc left - 4) text in
      let t = find a p in
      let u = find a q in
      let v = find a r in
      let w = find a s in
      emit size j (byte_0 t u ∷ []) (
        if r == pad
        then some (j + 1, [])
        else emit size (j + 1) (byte_1 u v ∷ [])
            (if s == pad then some (j + 2, []) else emit size (j + 2) (byte_2 v w ∷ []) rest))
  decode_from size j (suc left) text = none

  -- A refused size gives `-1`. The test is in `size_t`.
  unfoldable pub decode : ℕ → ℕ → List ℕ → Option (ℕ × List ℕ)
  unfolding decode_from
  decode size left text =
      if ltb size (mul_size (sub_size (left / 4) 1) 3)
      then some (size_max, [])
      else decode_from size 0 left text
